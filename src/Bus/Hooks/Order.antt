-- ===== src/Bus/Hooks/Order.antt =====
-- host/memhooks.go: on every bus that On and its undo functions lead to, the entries of a point stand in
-- the order of registration, and Trigger's sorting by id keeps it.
use egop.Prelude.{
  Text, text_eq, lookup, lookup-insert, lookup-delete, filter, sort_by, Map, ℕ, ◌+◌, ◌==◌,
  Bool-cases, Option-cases, not, if◌then◌else◌, if_either, List, [], ◌∷◌, ◌++◌, Option, none, some,
  ◌≡◌, refl, sym, subst, inl, inr, arith,
}
use egop.Bus.Rising.{IsRising, sort_by-IsRising, snoc-IsRising, higher-IsRising, filter-IsRising}
use egop.Bus.Hooks.{HookEntry, MemHooks, entries_of, on, put_set, off}

-- The buses that registrations and their undo functions lead to.
pub data Reach (F : Type 0) : MemHooks F → Type 0 where
  start : Reach F (record { subs = []; next = 0 })
  registers :
      {m : MemHooks F} (owner hook : Text) (fn : F) → Reach F m → Reach F (on m owner hook fn).0
  undoes : {m : MemHooks F} (hook : Text) (id : ℕ) → Reach F m → Reach F (off hook id m)

module _ {F : Type 0} where
  abbrev Rises : List (HookEntry F) → ℕ → Type 0
  Rises es high = IsRising (λ (x : HookEntry F). x.id) 0 es high

  abbrev listed : Option (List (HookEntry F)) → List (HookEntry F)
  listed o = elim o [ none ↦ [] | some set ↦ set ]

  put_set-lookup :
      (hook q : Text) (set : List (HookEntry F)) (subs : Map (List (HookEntry F)))
      → listed (lookup q (put_set hook set subs))
        ≡ (if text_eq hook q then set else listed (lookup q subs))
  unfolding put_set
  put_set-lookup hook q [] subs = elim (Bool-cases (text_eq hook q)) [
    | inl e ↦ rw (lookup-delete hook q subs, e) refl
    | inr e ↦ rw (lookup-delete hook q subs, e) refl
  ]
  put_set-lookup hook q (x ∷ xs) subs = elim (Bool-cases (text_eq hook q)) [
    | inl e ↦ rw (lookup-insert hook q (x ∷ xs) subs, e) refl
    | inr e ↦ rw (lookup-insert hook q (x ∷ xs) subs, e) refl
  ]

  on-Rises :
      (m : MemHooks F) (owner hook : Text) (fn : F) (q : Text)
      → ((p : Text) → Rises (entries_of m p) m.next)
      → Rises (entries_of (on m owner hook fn).0 q) (on m owner hook fn).0.next
  unfolding on entries_of
  on-Rises m owner hook fn q v =
      let entry : HookEntry F = record { id = m.next + 1; owner = owner; fn = fn } in
      let more = listed (lookup hook m.subs) ++ entry ∷ [] in
      subst (λ o. Rises (listed o) (m.next + 1)) (sym (lookup-insert hook q more m.subs))
        (if_either (λ o. Rises (listed o) (m.next + 1)) (text_eq hook q)
          (λ e.
            snoc-IsRising (λ x. x.id) 0 (listed (lookup hook m.subs)) m.next entry (omega arith)
              (v hook))
          (λ e.
            higher-IsRising (λ x. x.id) 0 (listed (lookup q m.subs)) m.next (m.next + 1)
              (omega arith) (v q)))

  off-Rises :
      (m : MemHooks F) (hook : Text) (id : ℕ) (q : Text)
      → ((p : Text) → Rises (entries_of m p) m.next)
      → Rises (entries_of (off hook id m) q) (off hook id m).next
  unfolding off entries_of
  off-Rises m hook id q v = elim (Option-cases (lookup hook m.subs)) [
    | inl e ↦ rw (e, off) (v q)
    | inr (set, e) ↦
        let kept = filter (λ (x : HookEntry F). not (x.id == id)) set in
        let before : Rises set m.next = subst (λ o. Rises (listed o) m.next) e (v hook) in
        rw (e, off)
          (subst (λ es. Rises es m.next) (sym (put_set-lookup hook q kept m.subs))
            (if_either (λ es. Rises es m.next) (text_eq hook q)
              (λ same. filter-IsRising (λ x. x.id) _ 0 set m.next before) (λ other. v q)))
  ]

  Reach-Rises : {m : MemHooks F} → Reach F m → (q : Text) → Rises (entries_of m q) m.next
  unfolding entries_of lookup
  Reach-Rises start q = omega arith
  Reach-Rises (registers {m} owner hook fn r) q = on-Rises m owner hook fn q (Reach-Rises r)
  Reach-Rises (undoes {m} hook id r) q = off-Rises m hook id q (Reach-Rises r)

  pub sort_by-entries_of :
      {m : MemHooks F}
      → Reach F m
      → (q : Text) → sort_by (λ e. e.id) (entries_of m q) ≡ entries_of m q
  sort_by-entries_of {m} r q =
      sort_by-IsRising (λ x. x.id) 0 (entries_of m q) m.next (Reach-Rises r q)
