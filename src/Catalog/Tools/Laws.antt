-- ===== src/Catalog/Tools/Laws.antt =====
-- What every registered Tool satisfies (backend/app/tools/registry.py).
use bug_free_enigma.Base.{true, false, none, ◌≡◌, arith, ok, All}
use bug_free_enigma.Base.Dict.{lookup, put, values, All-put}
use bug_free_enigma.Core.Enums.{RiskLevel}
use bug_free_enigma.Core.Models.Catalog.{Tool}
use bug_free_enigma.Catalog.Skills.{is_high}
use bug_free_enigma.Catalog.Tools.{ToolRegistry, register}

-- A Tool of high risk asks for approval, and one of forbidden risk is switched off as well.
pub record IsGuarded (t : Tool) : Type 0 where
  pub guarded : is_high t.risk_level ≡ true → t.requires_approval ≡ true
  pub switched_off : t.risk_level ≡ RiskLevel.forbidden → t.enabled ≡ false

pub register-eq-ok :
    (t : Tool) (b : ToolRegistry) {c : ToolRegistry}
    → register t b ≡ ok c
    → (lookup t.tool_id b ≡ none) × IsGuarded t × (c ≡ put t.tool_id t b)
unfolding register
register-eq-ok t b h = (ground arith, ground arith, ground arith)

-- A registration that goes through keeps every Tool guarded: a Tool of high or forbidden risk asks
-- for approval, and one of forbidden risk is switched off.
pub register-IsGuarded :
    (t : Tool) (b : ToolRegistry) {c : ToolRegistry}
    → register t b ≡ ok c
    → All IsGuarded (values b)
    → All IsGuarded (values c)
register-IsGuarded t b e h =
    let (_, safe, written) = register-eq-ok t b e in
    rw written (All-put IsGuarded t.tool_id t b safe h)
