-- ===== src/Host/Hooks.antt =====
-- host/register.go: rebuildHookDeclsLocked, the table of hook points with their first declarers.
use egop.Prelude.{
  Text, lookup, insert, has, sort_by, Map, ℕ, if◌then◌else◌, List, [], ◌∷◌, none, some,
}
use egop.Contract.Meta.{Meta, HookPointSpec, HookKind}
use egop.Host.State.{HookDecl}

-- An undeclared kind counts as modify.
unfoldable pub declared_kind : HookKind → HookKind
declared_kind HookKind.unset = HookKind.modify
declared_kind k = k

unfoldable pub declare_hooks : Text → List HookPointSpec → Map HookDecl → Map HookDecl
declare_hooks owner [] out = out
declare_hooks owner (hp ∷ hps) out = declare_hooks owner hps (
    if has hp.id out
    then out
    else insert hp.id (record { owner = owner; kind = declared_kind hp.kind }) out)

unfoldable pub declare_rows : List (Text × Meta) → Map HookDecl → Map HookDecl
declare_rows [] out = out
declare_rows ((id, m) ∷ rows) out = declare_rows rows (declare_hooks id m.provides.hooks out)

-- `h.seq[id]`, with the zero value for a missing key.
unfoldable pub seq_of : Map ℕ → Text → ℕ
seq_of seq id = elim (lookup id seq) [ none ↦ 0 | some n ↦ n ]

unfoldable pub rebuild_hook_decls : Map Meta → Map ℕ → Map HookDecl
rebuild_hook_decls metas seq = declare_rows (sort_by (λ e. seq_of seq e.0) metas) []
