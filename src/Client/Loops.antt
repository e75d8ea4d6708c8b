-- ===== src/Client/Loops.antt =====
-- The background loops of client/client.cc once a subscription has ended.
use transfer_queue.Prelude.{
  ℕ, ◌≡◌, ◌≢◌, refl, ap, ◌∙◌, Bool, true, false, not, ◌&&◌, List, [], ◌∷◌, ite, ℕ_discrete,
  Bool-cases, inl, inr, arith, if_neg, if_pos, if◌then◌else◌, sym, subst,
}
use transfer_queue.Action.{Result, ok, err}
use transfer_queue.Platform.Message.{Formats}
use transfer_queue.Proto.{TrajectoryGroup}
use transfer_queue.Client.{TransferQueueClient}
use transfer_queue.Client.Stream.{
  start_loop, Item, Returned, returned, pending, waits, without, accepts, process, settle, receive,
  finish_round,
}

-- Items for the loops, in the order of arrival.
abbrev pub Arrivals : Type 0
Arrivals = List (ℕ × Item)

pub without-waits_self : (id : ℕ) (l : List ℕ) → waits id (without id l) ≡ false
unfolding waits without
without-waits_self id [] = refl
without-waits_self id (k ∷ l) = ground (arith, without-waits_self id l)

pub without-waits_other : (id k : ℕ) (l : List ℕ) → id ≢ k → waits id (without k l) ≡ waits id l
unfolding waits without
without-waits_other id k [] h = refl
without-waits_other id k (j ∷ l) h = ground (arith, without-waits_other id k l h)

pub waits-push :
    (id : ℕ) (c : TransferQueueClient)
    → waits id c.loops ≡ true
    → waits id (start_loop c).loops ≡ true
unfolding waits start_loop
waits-push id c h = ground (arith, h)

module _ {F : Type 0} (formats : Formats F) (callback : TrajectoryGroup F → Returned) where
  unfoldable pub deliver : Arrivals → TransferQueueClient → TransferQueueClient
  deliver [] c = c
  deliver ((id, item) ∷ l) c = deliver l (receive formats callback id item c)

  abbrev pub is_pending : Returned → Bool
  is_pending (returned r) = false
  is_pending pending = true

  -- Whether the round of a loop ends with some items, from inside of a callback or not: with an item
  -- of its source for which no callback stays pending, or with the result of the pending callback.
  -- What the other loops get, and what comes when the loop does not ask for it, does not count.
  unfoldable pub ends_round : Bool → ℕ → Arrivals → Bool
  ends_round busy id [] = false
  ends_round busy id ((k, item) ∷ l) =
      ite (ℕ_discrete id k)
        (if accepts busy item
          then (if is_pending (process formats callback item) then ends_round true id l else true)
          else ends_round busy id l)
        (ends_round busy id l)

  -- A loop does not change what another does.
  record Apart (id : ℕ) (c c' : TransferQueueClient) : Type 0 where
    inactive : c'.streaming_active ≡ false
    running : waits id c'.loops ≡ waits id c.loops
    busy : waits id c'.callbacks ≡ waits id c.callbacks

  finish_inactive :
      (r : Result (Unit {0})) (id : ℕ) (c : TransferQueueClient)
      → c.streaming_active ≡ false
      → finish_round formats callback r id c ≡ record c { loops = without id c.loops }
  finish_inactive (ok _) id c off = rw (off) refl
  finish_inactive (err e) id c off = rw (off) refl

  settle-Apart :
      (r : Returned) (id k : ℕ) (c : TransferQueueClient)
      → id ≢ k
      → c.streaming_active ≡ false
      → Apart id c (settle formats callback r k (record c { callbacks = without k c.callbacks }))
  unfolding waits
  settle-Apart (returned r) id k c away off =
      subst (Apart id c)
        (sym (finish_inactive r k (record c { callbacks = without k c.callbacks }) off))
        (record {
          inactive = off;
          running = without-waits_other id k c.loops away;
          busy = without-waits_other id k c.callbacks away;
        })
  settle-Apart pending id k c away off = record {
    inactive = off;
    running = refl;
    busy = if_neg (ℕ_discrete id k) away _ _ ∙ without-waits_other id k c.callbacks away;
  }

  receive-Apart :
      (id k : ℕ) (item : Item) (c : TransferQueueClient)
      → id ≢ k
      → c.streaming_active ≡ false
      → Apart id c (receive formats callback k item c)
  unfolding receive
  receive-Apart id k item c away off =
      elim (Bool-cases (waits k c.loops && accepts (waits k c.callbacks) item)) [
        | inl e ↦ rw (e) (settle-Apart (process formats callback item) id k c away off)
        | inr e ↦ rw (e) (record { inactive = off; running = refl; busy = refl })
      ]

  -- What the theorem below says of the items that are left.
  abbrev Told : ℕ → Arrivals → Type 0
  Told id l =
      (c : TransferQueueClient)
      → c.streaming_active ≡ false
      → waits id (deliver l c).loops
        ≡ (waits id c.loops && not (ends_round (waits id c.callbacks) id l))

  settle-Told :
      (r : Returned) (id : ℕ) (l : Arrivals) (c : TransferQueueClient)
      → Told id l
      → c.streaming_active ≡ false
      → waits id c.loops ≡ true
      → let c' : TransferQueueClient = record c { callbacks = without id c.callbacks } in
        waits id (deliver l (settle formats callback r id c')).loops
        ≡ not (if is_pending r then ends_round true id l else true)
  unfolding waits
  settle-Told pending id l c told off e =
      told (record c { callbacks = id ∷ without id c.callbacks }) off
      ∙ rw (e, if_pos (ℕ_discrete id id) refl) refl
  settle-Told (returned r) id l c told off e =
      let c' : TransferQueueClient = record c { callbacks = without id c.callbacks } in
      ap (λ d. waits id (deliver l d).loops) (finish_inactive r id c' off)
      ∙ told (record c' { loops = without id c.loops }) off
      ∙ rw (without-waits_self id c.loops) refl

  receive-Told :
      (id : ℕ) (item : Item) (l : Arrivals) (c : TransferQueueClient)
      → Told id l
      → c.streaming_active ≡ false
      → waits id (deliver l (receive formats callback id item c)).loops ≡ (
          waits id c.loops
          && not (
              if accepts (waits id c.callbacks) item
              then (if is_pending (process formats callback item)
                  then ends_round true id l
                  else true)
              else ends_round (waits id c.callbacks) id l))
  unfolding receive
  receive-Told id item l c told off = elim (Bool-cases (waits id c.loops)) [
    | inr e ↦ rw (e) (told c off ∙ rw (e) refl)
    | inl e ↦ elim (Bool-cases (accepts (waits id c.callbacks) item)) [
      | inr a ↦ rw (e, a) (told c off ∙ rw (e) refl)
      | inl a ↦ rw (e, a) (settle-Told (process formats callback item) id l c told off e)
    ]
  ]

  -- After the end of a subscription, a loop still waits if its round has not ended.
  pub deliver_inactive :
      (items : Arrivals) (id : ℕ) (c : TransferQueueClient)
      → c.streaming_active ≡ false
      → waits id (deliver items c).loops
        ≡ (waits id c.loops && not (ends_round (waits id c.callbacks) id items))
  unfolding deliver ends_round
  deliver_inactive [] id c off = ground arith
  deliver_inactive ((k, item) ∷ l) id c off = elim (ℕ_discrete id k) [
    | no away ↦
        let a = receive-Apart id k item c away off in
        deliver_inactive l id (receive formats callback k item c) a.inactive
        ∙ rw (a.running, a.busy, if_neg (ℕ_discrete id k) away) refl
    | yes e ↦ rw (if_pos (ℕ_discrete id k) e) (
        subst
          (λ j. waits id (deliver l (receive formats callback j item c)).loops ≡ (
            waits id c.loops
            && not (
                if accepts (waits id c.callbacks) item
                then (if is_pending (process formats callback item)
                    then ends_round true id l
                    else true)
                else ends_round (waits id c.callbacks) id l)))
          e (receive-Told id item l c (deliver_inactive l id) off))
  ]
