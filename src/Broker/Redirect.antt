-- ===== src/Broker/Redirect.antt =====
-- `tspHandleRedirect` of tspc-advanced/src/tsp/tsp_redirect.c. What `tspExtractPayload` makes of
-- the message is an argument, as are the threads, the memory and the file.
use gw6c.Base.{ℕ, List, Option, none, some, Bool, not, ltb, ◌==◌, if◌then◌else◌}
use gw6c.Broker.{
  Status, ok, cant_extract_payload, cant_create_list, cant_sort_list, empty_broker_list, is_ok,
  Broker, TunnelInfo, Threads, create_broker_list, sort_broker_list,
}
use gw6c.Broker.Files.{write_broker_list}

-- What a call meets.
pub record Surroundings : Type 0 where
  pub can_create : ℕ → Bool
  pub can_copy : ℕ → Bool
  pub threads : Threads
  pub file_named : Bool
  pub file_opens : Bool
  pub can_write : ℕ → Bool

-- The status, the broker list, and what is written to the broker list file, if anything.
abbrev pub Handled : Type 0
Handled = Status × List Broker × Option (List ℕ)

module _ (expand : List ℕ → List ℕ) (env : Surroundings) where
  open env use {can_create, can_copy, threads, file_named, file_opens, can_write}

  -- With more than one broker: sort, log, and write the file, whose errors are passed over.
  unfoldable pub sort_and_save : List Broker → ℕ → Handled
  sort_and_save brokers count =
      let (status, sorted) = sort_broker_list threads can_copy brokers count in
      if is_ok status
      then (ok, sorted, (write_broker_list file_named file_opens can_write sorted).1)
      else (cant_sort_list, sorted, none)

  -- `old` is the list before; it is freed when the new one is built.
  unfoldable pub handle_redirect : Option TunnelInfo → List Broker → Handled
  handle_redirect none old = (cant_extract_payload, old, none)
  handle_redirect (some info) old =
      let (status, brokers, count) = create_broker_list expand can_create info in
      if not (is_ok status)
      then (cant_create_list, brokers, none)
      else if ltb 1 count
      then sort_and_save brokers count
      else if count == 0
      then (empty_broker_list, brokers, none)
      else (ok, brokers, none)
