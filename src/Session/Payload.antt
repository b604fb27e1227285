-- ===== src/Session/Payload.antt =====
-- `tspAddPayloadString` of tspc-advanced/src/tsp/tsp_client.c: a message that grows by pieces.
use gw6c.Base.{
  and_false, ℕ, ◌+◌, ◌≤◌, ◌≡◌, ◌⊎◌, inl, inr, refl, sym, ap, ◌∙◌, ==_iff, le→ltb, ltb-false→le,
  List, [], ◌++◌, Option, none, some, Bool, true, false, not, ltb, ◌==◌, ◌&&◌, if◌then◌else◌,
  length, length-append, arith, Bool-cases,
}

-- `tPayload`; `text` is the C string in the allocation of `capacity` bytes.
pub record Payload : Type 0 where
  pub size : ℕ
  pub capacity : ℕ
  pub text : List ℕ

-- `PROTOCOLMAXPAYLOADCHUNK`
abbrev pub chunk : ℕ
chunk = 2048

-- The text was added; there was no memory; or `strcat` wrote past the allocation.
pub data Added : Type 0 where
  added no_memory : Payload → Added
  overflow : Added

-- The first allocation, if there is none.
unfoldable pub started : Payload → Payload
started p = if p.capacity == 0 then record p { capacity = chunk; text = [] } else p

-- One more chunk, if the text does not fit.
unfoldable pub widened : Payload → ℕ → Payload
widened p len =
    if ltb p.capacity (p.size + len + 1) then record p { capacity = p.capacity + chunk } else p

unfoldable pub strcat : Payload → List ℕ → Added
strcat p addition =
    if ltb p.capacity (length p.text + length addition + 1)
    then overflow
    else added (record p { text = p.text ++ addition; size = p.size + length addition })

-- `first_ok` and `second_ok` tell whether the two calls of `malloc` succeed.
unfoldable pub add_payload_string : (first_ok second_ok : Bool) → Payload → Option (List ℕ) → Added
add_payload_string first_ok second_ok p none = added p
add_payload_string first_ok second_ok p (some addition) =
    let p₁ = started p in
    let p₂ = widened p₁ (length addition) in
    if (p.capacity == 0) && not first_ok
    then no_memory p
    else if ltb p₁.capacity (p₁.size + length addition + 1) && not second_ok
    then no_memory p₂
    else strcat p₂ addition

-- The size is that of the text, which fits with its final zero, or nothing is allocated.
pub record IsValid (p : Payload) : Type 0 where
  pub counted : p.size ≡ length p.text
  pub fits : (p.capacity ≡ 0) ⊎ (p.size + 1 ≤ p.capacity)
  pub empty : p.capacity ≡ 0 → p.text ≡ []

-- Valid, with an allocation.
HasRoom : Payload → Type 0
HasRoom p = (p.size ≡ length p.text) × (p.size + 1 ≤ p.capacity)

started-HasRoom : (p : Payload) → IsValid p → HasRoom (started p) × ((started p).text ≡ p.text)
unfolding started HasRoom
started-HasRoom p v = elim (Bool-cases (p.capacity == 0)) [
  | inl none_yet ↦
      let zero_capacity : p.capacity ≡ 0 = (==_iff p.capacity 0).0 none_yet in
      let no_text : p.text ≡ [] = v.empty zero_capacity in
      let no_size : p.size ≡ 0 = v.counted ∙ ap length no_text in
      rw none_yet ((no_size, omega arith), sym no_text)
  | inr some_yet ↦ rw some_yet ((v.counted, ground (arith, v.fits)), refl)
]

grown :
    (q : Payload) (addition : List ℕ)
    → HasRoom q
    → length addition ≤ chunk
    → (p' : Payload) × (strcat (widened q (length addition)) addition ≡ added p')
      × (p'.text ≡ q.text ++ addition)
      × IsValid p'
unfolding widened strcat HasRoom
grown q addition room small =
    let counted = room.0 in
    let size : length (q.text ++ addition) ≡ length q.text + length addition =
      length-append q.text addition in
    elim (Bool-cases (ltb q.capacity (q.size + length addition + 1))) [
      | inl more ↦
          let fits : ltb (q.capacity + chunk) (length q.text + length addition + 1) ≡ false =
            le→ltb _ _ (omega arith) in
          rw (more, fits)
            (
              _,
              refl,
              refl,
              record {
                counted = omega arith;
                fits = inr (omega arith);
                empty = λ e. absurd (omega arith);
              },
            )
      | inr enough ↦
          let le = ltb-false→le _ _ enough in
          let fits : ltb q.capacity (length q.text + length addition + 1) ≡ false =
            le→ltb _ _ (omega arith) in
          rw (enough, fits)
            (
              _,
              refl,
              refl,
              record {
                counted = omega arith;
                fits = inr (omega arith);
                empty = λ e. absurd (omega arith);
              },
            )
    ]

-- A piece of at most 2048 bytes is added to a valid message, if memory is given; the message stays
-- valid, and nothing is written past its allocation.
pub add_payload_string-IsValid :
    (p : Payload) (addition : List ℕ)
    → IsValid p
    → length addition ≤ chunk
    → (p' : Payload) × (add_payload_string true true p (some addition) ≡ added p')
      × (p'.text ≡ p.text ++ addition)
      × IsValid p'
unfolding add_payload_string
add_payload_string-IsValid p addition v small =
    let (room, text) = started-HasRoom p v in
    let (p', e, longer, valid) = grown (started p) addition room small in
    let start = started p in
    (
      p',
      rw
          (
            and_false (p.capacity == 0),
            and_false (ltb start.capacity (start.size + length addition + 1)),
          )
          e,
      longer ∙ ap (λ t. t ++ addition) text,
      valid,
    )
