-- ===== src/Gateway/Admission.antt =====
-- worker/src/llm.rs: the slots of a lane in one process (acquire_local_admission, try_reserve_slot and
-- the drop of a guard). Each access to the counter is a step, so that requests interleave within the
-- loop of try_reserve_slot.
use rust_agent.Base.{
  ℕ, suc, ◌-◌, ◌≤◌, ◌<◌, leb, ◌==◌, ◌≡◌, refl, arith, List, [], ◌∷◌, All, All-In, In, if◌then◌else◌,
  Bool-cases, inl, inr,
}

-- The counter of a lane, what the requests in the loop have loaded from it, and the guards that live.
pub record Lane : Type 0 where
  pub counter : ℕ
  pub loaded : List ℕ
  pub guards : ℕ

abbrev pub empty_lane : Lane
empty_lane = record { counter = 0; loaded = []; guards = 0 }

abbrev pub forget : ℕ → List ℕ → List ℕ
forget c [] = []
forget c (d ∷ ds) = if d == c then ds else d ∷ forget c ds

-- `counter.load`, after which a request stays in the loop, or is denied.
unfoldable pub load_slot : ℕ → Lane → Lane
load_slot max_inflight l =
    if leb max_inflight l.counter then l else record l { loaded = l.counter ∷ l.loaded }

-- `counter.compare_exchange(current, current + 1)` of a request that has loaded `current`: a guard, or
-- another round of the loop, which begins with a load.
unfoldable pub exchange_slot : ℕ → Lane → Lane
exchange_slot current l =
    if l.counter == current
    then record { counter = suc current; loaded = forget current l.loaded; guards = suc l.guards }
    else record l { loaded = forget current l.loaded }

-- The drop of a guard.
unfoldable pub drop_guard : Lane → Lane
drop_guard l = record l { counter = l.counter - 1; guards = l.guards - 1 }

pub data Step (max_inflight : ℕ) (l : Lane) : Lane → Type 0 where
  load : Step max_inflight l (load_slot max_inflight l)
  exchange : (current : ℕ) → In current l.loaded → Step max_inflight l (exchange_slot current l)
  drop : 1 ≤ l.guards → Step max_inflight l (drop_guard l)

pub data Reach (max_inflight : ℕ) (l : Lane) : Lane → Type 0 where
  here : Reach max_inflight l l
  next : {m n : Lane} → Reach max_inflight l m → Step max_inflight m n → Reach max_inflight l n

pub record IsWithinSlots (max_inflight : ℕ) (l : Lane) : Type 0 where
  pub counted : l.counter ≡ l.guards
  pub bounded : l.guards ≤ max_inflight
  pub waiting : All (λ c. c < max_inflight) l.loaded

forget-All : (P : ℕ → Type 0) (c : ℕ) (ds : List ℕ) → All P ds → All P (forget c ds)
forget-All P c [] h = h
forget-All P c (d ∷ ds) (x, h) = elim (Bool-cases (d == c)) [
  | inl e ↦ rw e h
  | inr e ↦ rw e (x, forget-All P c ds h)
]

Step-IsWithinSlots :
    {max_inflight : ℕ} {l m : Lane}
    → Step max_inflight l m
    → IsWithinSlots max_inflight l
    → IsWithinSlots max_inflight m
unfolding load_slot exchange_slot drop_guard
Step-IsWithinSlots {max_inflight} {l} load v = elim (Bool-cases (leb max_inflight l.counter)) [
  | inl full ↦ rw (full, load_slot) v
  | inr room ↦
      rw (room, load_slot)
        (record { counted = v.counted; bounded = v.bounded; waiting = (ground arith, v.waiting) })
]
Step-IsWithinSlots {max_inflight} {l} (exchange current m) v =
    let less = All-In (λ c. c < max_inflight) current l.loaded v.waiting m in
    let rest = forget-All (λ c. c < max_inflight) current l.loaded v.waiting in
    elim (Bool-cases (l.counter == current)) [
      | inl same ↦
          let counted = v.counted in
          rw (same, exchange_slot)
            (record {
              counted = ground (arith, counted);
              bounded = ground (arith, counted, less);
              waiting = rest;
            })
      | inr other ↦
          rw (other, exchange_slot)
            (record { counted = v.counted; bounded = v.bounded; waiting = rest })
    ]
Step-IsWithinSlots {max_inflight} {l} (drop one) v =
    let counted = v.counted in
    let bounded = v.bounded in
    record {
      counted = omega (counted, arith);
      bounded = omega (bounded, arith);
      waiting = v.waiting;
    }

Reach-kept :
    {max_inflight : ℕ} {l m : Lane}
    → Reach max_inflight l m
    → IsWithinSlots max_inflight l
    → IsWithinSlots max_inflight m
Reach-kept here v = v
Reach-kept (next r st) v = Step-IsWithinSlots st (Reach-kept r v)

-- However the loads, the exchanges and the drops of requests interleave, a lane that was empty has as
-- many guards as its counter says, and never more than the maximum.
pub Reach-IsWithinSlots :
    {max_inflight : ℕ} {l : Lane} → Reach max_inflight empty_lane l → IsWithinSlots max_inflight l
Reach-IsWithinSlots r =
    Reach-kept r (record { counted = refl; bounded = omega arith; waiting = tt })
