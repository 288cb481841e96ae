-- ===== src/Bus/Events/Laws.antt =====
-- host/memevents.go: whom Dispatch reaches, and in which order.
use egop.Prelude.{filter, ℕ, Bool-cases, List, [], ◌∷◌, Option, ◌≡◌, refl, inl, inr, arith, map}
use egop.Contract.Event.{Event, EventFilter, event_match}
use egop.Bus.Rising.{IsRising, sort_by-IsRising, snoc-IsRising, filter-IsRising}
use egop.Bus.Events.{SubEntry, MemEvents, empty_bus, subscribe, unsubscribe, deliver, dispatch}

-- The buses that subscriptions and their undo functions lead to.
pub data Reach (F : Type 0) : MemEvents F → Type 0 where
  start : Reach F empty_bus
  subscribes :
      {m : MemEvents F} (f : Option EventFilter) (fn : F) → Reach F m → Reach F (subscribe m f fn).0
  unsubscribes : {m : MemEvents F} (id : ℕ) → Reach F m → Reach F (unsubscribe id m)

Reach-IsRising :
    {F : Type 0} {m : MemEvents F} → Reach F m → IsRising (λ (x : SubEntry F). x.id) 0 m.subs m.next
unfolding subscribe unsubscribe
Reach-IsRising start = omega arith
Reach-IsRising (subscribes {m} f fn r) =
    snoc-IsRising (λ x. x.id) 0 m.subs m.next _ (omega arith) (Reach-IsRising r)
Reach-IsRising (unsubscribes {m} id r) =
    filter-IsRising (λ x. x.id) _ 0 m.subs m.next (Reach-IsRising r)

-- The callbacks of the matching entries, in their order.
abbrev pub matching : {F : Type 0} → Event → List (SubEntry F) → List F
matching e ens = map (λ en. en.fn) (filter (λ en. event_match en.filter e) ens)

abbrev pub run_in_order : {F S : Type 0} → (F → Event → S → S) → Event → List F → S → S
run_in_order run e [] s = s
run_in_order run e (f ∷ fs) s = run_in_order run e fs (run f e s)

module _ {F S : Type 0} (run : F → Event → S → S) (e : Event) where
  deliver_lem :
      (ens : List (SubEntry F)) (s : S)
      → deliver run e ens s ≡ run_in_order run e (matching e ens) s
  unfolding deliver filter
  deliver_lem [] s = refl
  deliver_lem (en ∷ ens) s = elim (Bool-cases (event_match en.filter e)) [
    | inl hit ↦ rw hit (deliver_lem ens (run en.fn e s))
    | inr miss ↦ rw miss (deliver_lem ens s)
  ]

  -- Dispatch calls exactly the callbacks of the standing subscriptions whose filter matches, each
  -- once, in the order in which they subscribed.
  pub dispatch_order :
      (m : MemEvents F)
      → Reach F m
      → (s : S) → dispatch run m e s ≡ run_in_order run e (matching e m.subs) s
  unfolding dispatch
  dispatch_order m r s =
      rw (sort_by-IsRising (λ x. x.id) 0 m.subs m.next (Reach-IsRising r)) (deliver_lem m.subs s)
