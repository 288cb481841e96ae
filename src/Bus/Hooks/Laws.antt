-- ===== src/Bus/Hooks/Laws.antt =====
-- host/memhooks.go, host/call.go: what TriggerHook runs and returns.
use egop.Prelude.{
  Text, codes, is_empty, lookup, Map, ℕ, ◌+◌, if◌then◌else◌, if_either, Bool-cases, true, false,
  List, [], ◌∷◌, ◌++◌, Option, none, some, ◌≡◌, ◌≢◌, ◌⊎◌, refl, inl, inr,
}
use egop.Contract.Event.{origin_hook}
use egop.Contract.Meta.{HookKind}
use egop.Host.State.{HookDecl}
use egop.Bus.Hooks.{
  HookResult, HookReply, returned, panicked, HookEntry, MemHooks, entries_of, safe_hook_result,
  run_hooks, trigger, stamp, drop_blocks, ignore_block, point_kind, is_observe, observed_results,
  trigger_hook,
}
use egop.Bus.Hooks.Order.{Reach, sort_by-entries_of}

-- A point that is declared observe.
abbrev pub IsObserved : Map HookDecl → Text → Type 0
IsObserved decls hook = (d : HookDecl) × (lookup hook decls ≡ some d) × (d.kind ≡ HookKind.observe)

abbrev pub ignored_note : Text
ignored_note = codes "block ignored (observe-only hook point)"

-- What the host hands on of a callback's answer, where `Quiet` says that the point may not block.
pub data Verdict (Quiet : Type 0) : HookReply → HookResult → Type 0 where
  -- A panic: the result does not block and says why.
  broke :
      (p : Text) (res : HookResult)
      → res.block ≡ false
      → res.reason ≡ codes "hook panic: " ++ p
      → res.result_data ≡ []
      → Verdict Quiet (panicked p) res
  -- The answer as the callback gave it: the point may block, or the callback did not.
  stands :
      (r res : HookResult)
      → (¬ Quiet) ⊎ (r.block ≡ false)
      → res.block ≡ r.block
      → res.reason ≡ r.reason
      → res.result_data ≡ r.result_data
      → Verdict Quiet (returned r) res
  -- A block that does not count, with a note of it.
  muted :
      (r res : HookResult)
      → Quiet
      → r.block ≡ true
      → res.block ≡ false
      → ((r.reason ≡ []) × (res.reason ≡ ignored_note))
        ⊎ ((r.reason ≢ []) × (res.reason ≡ (r.reason ++ codes "; ") ++ ignored_note))
      → res.result_data ≡ r.result_data
      → Verdict Quiet (returned r) res

module _ {F S : Type 0} (run : F → Text → Text → S → S × HookReply) (hook input : Text) where
  -- The world after the callbacks, one after the other, whatever they answer.
  abbrev pub run_callbacks : List (HookEntry F) → S → S
  run_callbacks [] s = s
  run_callbacks (e ∷ es) s = run_callbacks es (run e.fn hook input s).0

  -- Result number `i` onwards, of the callbacks run from the world `s` on: who answered, in which place,
  -- and what.
  abbrev pub AreAnswers : Type 0 → ℕ → ℕ → List (HookEntry F) → S → List HookResult → Type 0
  AreAnswers Quiet now i [] s [] = Unit
  AreAnswers Quiet now i (e ∷ es) s [] = ⊥
  AreAnswers Quiet now i [] s (r ∷ rs) = ⊥
  AreAnswers Quiet now i (e ∷ es) s (r ∷ rs) =
      (r.seq ≡ i + 1)
      × (r.origin
          ≡ some
              (record { id = e.owner; version = []; kind = origin_hook; point = hook; at = now }))
      × Verdict Quiet (run e.fn hook input s).1 r
      × AreAnswers Quiet now (i + 1) es (run e.fn hook input s).0 rs

note_cases :
    (t : Text)
    → let noted = (if is_empty t then [] else t ++ codes "; ") ++ ignored_note in
      ((t ≡ []) × (noted ≡ ignored_note)) ⊎ ((t ≢ []) × (noted ≡ (t ++ codes "; ") ++ ignored_note))
note_cases [] = inl (refl, refl)
note_cases (c ∷ t) = inr ((λ e. cc), refl)

abbrev quiet_result : HookResult → HookResult
quiet_result r = if r.block then ignore_block r else r

module _ {F S : Type 0} (run : F → Text → Text → S → S × HookReply) (hook input : Text)
    (now : ℕ) where
  Verdict-loud :
      (Quiet : Type 0) (owner : Text) (i : ℕ) (reply : HookReply)
      → ¬ Quiet
      → Verdict Quiet reply (stamp run hook input now owner i (safe_hook_result reply))
  unfolding stamp safe_hook_result
  Verdict-loud Quiet owner i (returned r) loud = stands r _ (inl loud) refl refl refl
  Verdict-loud Quiet owner i (panicked p) loud = broke p _ refl refl refl

  Verdict-quiet :
      (Quiet : Type 0) (owner : Text) (i : ℕ) (reply : HookReply)
      → Quiet
      → Verdict Quiet reply
          (quiet_result (stamp run hook input now owner i (safe_hook_result reply)))
  unfolding stamp safe_hook_result ignore_block
  Verdict-quiet Quiet owner i (panicked p) quiet = broke p _ refl refl refl
  Verdict-quiet Quiet owner i (returned r) quiet =
      if_either (Verdict Quiet (returned r)) r.block
        (λ b. muted r _ quiet b refl (note_cases r.reason) refl)
        (λ b. stands r _ (inr b) refl refl refl)

  world_lem :
      (i : ℕ) (es : List (HookEntry F)) (s : S)
      → (run_hooks run hook input now i es s).0 ≡ run_callbacks run hook input es s
  unfolding run_hooks
  world_lem i [] s = refl
  world_lem i (e ∷ es) s = world_lem (i + 1) es (run e.fn hook input s).0

  loud_lem :
      (Quiet : Type 0)
      → ¬ Quiet
      → (i : ℕ) (es : List (HookEntry F)) (s : S)
      → AreAnswers run hook input Quiet now i es s (run_hooks run hook input now i es s).1
  unfolding run_hooks stamp
  loud_lem Quiet loud i [] s = tt
  loud_lem Quiet loud i (e ∷ es) s = (
    refl,
    refl,
    Verdict-loud Quiet e.owner i (run e.fn hook input s).1 loud,
    loud_lem Quiet loud (i + 1) es (run e.fn hook input s).0,
  )

  quiet_stamped :
      (owner : Text) (i : ℕ) (r : HookResult)
      → let res = quiet_result (stamp run hook input now owner i r) in
        (res.seq ≡ i + 1)
        × (res.origin
            ≡ some
                (record { id = owner; version = []; kind = origin_hook; point = hook; at = now }))
  unfolding stamp ignore_block
  quiet_stamped owner i r = elim (Bool-cases r.block) [
    | inl b ↦ rw b (refl, refl)
    | inr b ↦ rw b (refl, refl)
  ]

  quiet_lem :
      (Quiet : Type 0)
      → Quiet
      → (i : ℕ) (es : List (HookEntry F)) (s : S)
      → AreAnswers run hook input Quiet now i es s
          (drop_blocks (run_hooks run hook input now i es s).1)
  unfolding run_hooks drop_blocks
  quiet_lem Quiet quiet i [] s = tt
  quiet_lem Quiet quiet i (e ∷ es) s =
      let reply = (run e.fn hook input s).1 in
      let (number, owner) = quiet_stamped e.owner i (safe_hook_result reply) in
      (
        number,
        owner,
        Verdict-quiet Quiet e.owner i reply quiet,
        quiet_lem Quiet quiet (i + 1) es (run e.fn hook input s).0,
      )

observed :
    (decls : Map HookDecl) (hook : Text)
    → is_observe (point_kind decls hook) ≡ true
    → IsObserved decls hook
unfolding is_observe point_kind
observed decls hook e = look (lookup hook decls) refl e
  where
    of_observe : (k : HookKind) → is_observe k ≡ true → k ≡ HookKind.observe
    of_observe HookKind.observe e' = refl
    of_observe _ e' = cc

    look :
        (o : Option HookDecl)
        → lookup hook decls ≡ o
        → is_observe (elim o [ none ↦ HookKind.modify | some d ↦ d.kind ]) ≡ true
        → IsObserved decls hook
    look none f g = cc
    look (some d) f g = (d, f, of_observe d.kind g)

not-IsObserved :
    (decls : Map HookDecl) (hook : Text)
    → is_observe (point_kind decls hook) ≡ false
    → ¬ IsObserved decls hook
unfolding is_observe point_kind
not-IsObserved decls hook e (d, found, kind) =
    let yes : is_observe (point_kind decls hook) ≡ true = rw (found, point_kind, kind) refl in cc

-- On every bus that On and its undo functions lead to, TriggerHook runs every callback of the point once,
-- in the order of registration, also those after a callback that panics. Result number n names the owner
-- of callback n, carries the number n and hands on its block, reason and data; a panic becomes a result
-- that does not block and says so. Where the point is declared observe, a block is dropped and the reason
-- says so.
pub trigger_hook_lem :
    {F S : Type 0} (run : F → Text → Text → S → S × HookReply) (decls : Map HookDecl)
    (m : MemHooks F) (hook input : Text) (now : ℕ) (s : S)
    → Reach F m
    → ((trigger_hook run decls m hook input now s).0
        ≡ run_callbacks run hook input (entries_of m hook) s)
      × AreAnswers run hook input
          (IsObserved decls hook)
          now
          0
          (entries_of m hook)
          s
          (trigger_hook run decls m hook input now s).1
unfolding trigger_hook trigger observed_results
trigger_hook_lem run decls m hook input now s r =
    let es = entries_of m hook in
    let (world, rs) = run_hooks run hook input now 0 es s in
    rw (sort_by-entries_of r hook) (
      world_lem run hook input now 0 es s,
      elim (Bool-cases (is_observe (point_kind decls hook))) [
        | inl o ↦
            rw (o, observed_results) (quiet_lem run hook input now _ (observed decls hook o) 0 es s)
        | inr o ↦
            rw (o, observed_results)
              (loud_lem run hook input now _ (not-IsObserved decls hook o) 0 es s)
      ],
    )
