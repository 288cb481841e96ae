-- ===== src/Bus/Hooks.antt =====
-- host/memhooks.go: the in-memory hook bus, and TriggerHook of host/call.go on top of it. A callback
-- is a value of `F`; `run` performs it on a state of the world. Its answer is the HookResult that
-- contract.HookResultOf makes of what it returns, or its panic.
pub mod Order
pub mod Laws
use egop.Prelude.{
  Text, codes, is_empty, lookup, insert, delete, filter, sort_by, Map, ℕ, ◌+◌, ◌==◌, Bool, true,
  false, not, if◌then◌else◌, List, [], ◌∷◌, ◌++◌, Option, none, some,
}
use egop.Contract.Meta.{HookKind}
use egop.Contract.Event.{Origin, origin_hook}
use egop.Host.State.{HookDecl}

pub record HookResult : Type 0 where
  pub block : Bool
  pub reason : Text
  pub result_data : Text
  pub origin : Option Origin
  pub seq : ℕ

pub data HookReply : Type 0 where
  returned : HookResult → HookReply
  panicked : Text → HookReply

pub record HookEntry (F : Type 0) : Type 0 where
  pub id : ℕ
  pub owner : Text
  pub fn : F

pub record MemHooks (F : Type 0) : Type 0 where
  pub subs : Map (List (HookEntry F))
  pub next : ℕ

abbrev pub no_result : HookResult
no_result = record { block = false; reason = []; result_data = []; origin = none; seq = 0 }

-- safeHookResult
unfoldable pub safe_hook_result : HookReply → HookResult
safe_hook_result (returned r) = r
safe_hook_result (panicked p) = record no_result { reason = codes "hook panic: " ++ p }

module _ {F : Type 0} where
  unfoldable pub entries_of : MemHooks F → Text → List (HookEntry F)
  entries_of m hook = elim (lookup hook m.subs) [ none ↦ [] | some set ↦ set ]

  -- On: the bus after it, and the id that its undo function deletes.
  unfoldable pub on : MemHooks F → Text → Text → F → MemHooks F × ℕ
  on m owner hook fn =
      let id = m.next + 1 in
      let entry : HookEntry F = record { id = id; owner = owner; fn = fn } in
      (record m { next = id; subs = insert hook (entries_of m hook ++ entry ∷ []) m.subs }, id)

  -- The set without its entry; an empty set is dropped.
  unfoldable pub put_set :
      Text → List (HookEntry F) → Map (List (HookEntry F)) → Map (List (HookEntry F))
  put_set hook [] subs = delete hook subs
  put_set hook (x ∷ xs) subs = insert hook (x ∷ xs) subs

  -- The undo function of On.
  unfoldable pub off : Text → ℕ → MemHooks F → MemHooks F
  off hook id m = elim (lookup hook m.subs) [
    | none ↦ m
    | some set ↦ record m { subs = put_set hook (filter (λ e. not (e.id == id)) set) m.subs }
  ]

  module _ {S : Type 0} (run : F → Text → Text → S → S × HookReply) (hook input : Text)
      (now : ℕ) where
    -- One round: the framework writes the origin and the sequence number into the result.
    unfoldable pub stamp : Text → ℕ → HookResult → HookResult
    stamp owner i r = record r {
      origin =
          some (record { id = owner; version = []; kind = origin_hook; point = hook; at = now });
      seq = i + 1;
    }

    unfoldable pub run_hooks : ℕ → List (HookEntry F) → S → S × List HookResult
    run_hooks i [] s = (s, [])
    run_hooks i (e ∷ es) s =
        let (s', reply) = run e.fn hook input s in
        let (s'', out) = run_hooks (i + 1) es s' in
        (s'', stamp e.owner i (safe_hook_result reply) ∷ out)

    -- Trigger
    unfoldable pub trigger : MemHooks F → S → S × List HookResult
    trigger m s = run_hooks 0 (sort_by (λ e. e.id) (entries_of m hook)) s

-- The reason of a result whose block is dropped.
unfoldable pub ignore_block : HookResult → HookResult
ignore_block r = record r {
  block = false;
  reason =
      (if is_empty r.reason then [] else r.reason ++ codes "; ")
      ++ codes "block ignored (observe-only hook point)";
}

unfoldable pub drop_blocks : List HookResult → List HookResult
drop_blocks [] = []
drop_blocks (r ∷ rs) = (if r.block then ignore_block r else r) ∷ drop_blocks rs

-- The kind that counts for a point; modify where none is declared.
unfoldable pub point_kind : Map HookDecl → Text → HookKind
point_kind decls hook = elim (lookup hook decls) [ none ↦ HookKind.modify | some d ↦ d.kind ]

unfoldable pub is_observe : HookKind → Bool
is_observe HookKind.observe = true
is_observe _ = false

-- TriggerHook, from the bus's results on.
unfoldable pub observed_results : Map HookDecl → Text → List HookResult → List HookResult
observed_results decls hook results =
    if not (is_observe (point_kind decls hook)) then results else drop_blocks results

module _ {F S : Type 0} (run : F → Text → Text → S → S × HookReply) where
  unfoldable pub trigger_hook :
      Map HookDecl → MemHooks F → Text → Text → ℕ → S → S × List HookResult
  trigger_hook decls m hook input now s =
      let (s', results) = trigger run hook input now m s in
      (s', observed_results decls hook results)
