-- ===== src/Xml/Asked.antt =====
-- The attributes of a request are well formed: tspc-advanced/src/xml/xml_req.c.
use gw6c.Base.{
  decimal_from, codes, ℕ, zero, suc, ◌+◌, ◌/◌, ◌%◌, ◌<◌, ◌≡◌, ◌≢◌, refl, sym, ap, ◌∙◌, List, [],
  ◌∷◌, Bool, true, false, ltb, ltb→lt, ◌=s◌, same_refl, Bool-cases, inl, inr, arith,
}
use gw6c.Session.{ℤ, pos, negsuc}
use gw6c.Xml.{is_value, starts_alpha}
use gw6c.Xml.Scan.{Passes, IsAttribute}
use gw6c.Xml.Clear.{not_lt}
use gw6c.Xml.Redirection.{ipv4, ipv6, type-IsAttribute}
use gw6c.Xml.Request.{Mode, v6v4, v6udpv4, v6anyv4, v4v6, decimal_int, name_of, yes_no}
use gw6c.Xml.Asks.{kind_of}

pub different : (xs ys : List ℕ) → (xs =s ys) ≡ false → xs ≢ ys
different xs ys h e = cc (sym h ∙ ap (λ x. x =s ys) e ∙ same_refl ys)

-- The digits of a number.
decimal_from-Passes :
    (p : ℕ → Bool)
    → ((d : ℕ) → d < 10 → p (d + b'0') ≡ true)
    → (k n : ℕ) (rest : List ℕ) → Passes p rest
    → Passes p (decimal_from k n rest)
unfolding decimal_from
decimal_from-Passes p digit zero n rest all = all
decimal_from-Passes p digit (suc k) n rest all = elim (Bool-cases (ltb n 10)) [
  | inl small ↦ rw small (digit n (ltb→lt n 10 small), all)
  | inr large ↦ rw large (
      decimal_from-Passes p digit k (n / 10) ((n % 10 + b'0') ∷ rest)
        (digit (n % 10) (omega arith), all))
]

decimal_int-Passes :
    (p : ℕ → Bool)
    → ((d : ℕ) → d < 10 → p (d + b'0') ≡ true)
    → p b'-' ≡ true
    → (n : ℤ) → Passes p (decimal_int n)
decimal_int-Passes p digit sign (pos n) = decimal_from-Passes p digit (suc n) n [] tt
decimal_int-Passes p digit sign (negsuc n) =
    (sign, decimal_from-Passes p digit (suc (suc n)) (suc n) [] tt)

pub interval-IsAttribute : (n : ℤ) → IsAttribute (codes "interval", decimal_int n)
unfolding starts_alpha
interval-IsAttribute n = record {
  starts = refl;
  named = (refl, (refl, (refl, (refl, (refl, (refl, (refl, (refl, tt))))))));
  valued = decimal_int-Passes is_value (λ d lt. value d lt) refl n;
  flat = decimal_int-Passes not_lt (λ d lt. flat d lt) refl n;
}
  where
    value : (d : ℕ) → d < 10 → is_value (d + b'0') ≡ true
    value d lt = ground arith

    flat : (d : ℕ) → d < 10 → not_lt (d + b'0') ≡ true
    flat d lt = ground arith

pub kind-IsAttribute : (m : Mode) → IsAttribute (codes "type", kind_of m)
kind-IsAttribute v4v6 = type-IsAttribute ipv6
kind-IsAttribute v6v4 = type-IsAttribute ipv4
kind-IsAttribute v6udpv4 = type-IsAttribute ipv4
kind-IsAttribute v6anyv4 = type-IsAttribute ipv4

pub mode-IsAttribute : (m : Mode) → IsAttribute (codes "type", name_of m)
unfolding starts_alpha
mode-IsAttribute v4v6 = record {
  starts = refl;
  named = (refl, (refl, (refl, (refl, tt))));
  valued = (refl, (refl, (refl, (refl, tt))));
  flat = (refl, (refl, (refl, (refl, tt))));
}
mode-IsAttribute v6v4 = record {
  starts = refl;
  named = (refl, (refl, (refl, (refl, tt))));
  valued = (refl, (refl, (refl, (refl, tt))));
  flat = (refl, (refl, (refl, (refl, tt))));
}
mode-IsAttribute v6udpv4 = record {
  starts = refl;
  named = (refl, (refl, (refl, (refl, tt))));
  valued = (refl, (refl, (refl, (refl, (refl, (refl, (refl, tt)))))));
  flat = (refl, (refl, (refl, (refl, (refl, (refl, (refl, tt)))))));
}
mode-IsAttribute v6anyv4 = record {
  starts = refl;
  named = (refl, (refl, (refl, (refl, tt))));
  valued = (refl, (refl, (refl, (refl, (refl, (refl, (refl, tt)))))));
  flat = (refl, (refl, (refl, (refl, (refl, (refl, (refl, tt)))))));
}

pub proxy-IsAttribute : (b : Bool) → IsAttribute (codes "proxy", yes_no b)
unfolding starts_alpha
proxy-IsAttribute true = record {
  starts = refl;
  named = (refl, (refl, (refl, (refl, (refl, tt)))));
  valued = (refl, (refl, (refl, tt)));
  flat = (refl, (refl, (refl, tt)));
}
proxy-IsAttribute false = record {
  starts = refl;
  named = (refl, (refl, (refl, (refl, (refl, tt)))));
  valued = (refl, (refl, tt));
  flat = (refl, (refl, tt));
}
