-- ===== src/Action.antt =====
-- Futures as values: an action on a state returns a value or an exception, and the new state,
-- which keeps what was done before the exception. `null_dereference` and `not_ready`, a `get()` of a
-- future that is not ready outside of a thread, stand for the end of the process.
use transfer_queue.Prelude.{ℕ, List, [], ◌∷◌}

pub data Error : Type 0 where
  not_initialized serialize_failed not_a_directory bad_alloc : Error
  eof_header eof_body group_too_large parse_failed : Error
  spill_count_mismatch null_dereference no_instance underflow : Error
  not_connected connect_failed already_subscribed call_failed stream_ended : Error
  unknown_verb : Error
  not_ready : Error
  io : ℕ → Error
  runtime_error : List ℕ → Error

pub data Result {ℓ} (A : Type ℓ) : Type ℓ where
  ok : A → Result A
  err : Error → Result A

abbrev pub Action : Type 0 → Type 0 → Type 0
Action S A = S → Result A × S

module _ {S : Type 0} where
  abbrev pub pure : {A : Type 0} → A → Action S A
  pure a s = (ok a, s)

  abbrev pub throw : {A : Type 0} → Error → Action S A
  throw e s = (err e, s)

  abbrev pub continue : {A B : Type 0} → Result A × S → (A → Action S B) → Result B × S
  continue (ok a, s) f = f a s
  continue (err e, s) f = (err e, s)

  infixl 5 ◌>>=◌ ◌>>◌
  abbrev pub ◌>>=◌ : {A B : Type 0} → Action S A → (A → Action S B) → Action S B
  ◌>>=◌ m f s = continue (m s) f

  abbrev pub ◌>>◌ : {B : Type 0} → Action S (Unit {0}) → Action S B → Action S B
  m >> k = m >>= λ _. k

  -- `m.finally(c)`: an exception of `c` replaces a value of `m`.
  abbrev pub then_close : {A : Type 0} → Result A × S → Action S (Unit {0}) → Result A × S
  then_close (ok a, s) c = continue (c s) (λ _. pure a)
  then_close (err e, s) c = (err e, (c s).1)

  abbrev pub finally : {A : Type 0} → Action S A → Action S (Unit {0}) → Action S A
  finally m c s = then_close (m s) c

  -- `seastar::do_for_each` with a result for each element, in order.
  unfoldable pub for_each : {A B : Type 0} → (A → Action S B) → List A → Action S (List B)
  for_each f [] = pure []
  for_each f (a ∷ as') = do b ← f a; bs ← for_each f as'; pure (b ∷ bs)

-- `.then` with a function that has no effect and does not fail.
abbrev pub map_result : {A B : Type 0} → (A → B) → Result A → Result B
map_result f (ok a) = ok (f a)
map_result f (err e) = err e
