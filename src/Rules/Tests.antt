-- ===== src/Rules/Tests.antt =====
-- The rules at a small fleet: frontend/src/ruleText.ts.
use rmm_rxf_sys_de.Base.{ℕ, ◌≡◌, String, none, some, List, [], ◌∷◌, true}
use rmm_rxf_sys_de.Fleet.Types.{Device}
use rmm_rxf_sys_de.Fleet.Samples.{server}
use rmm_rxf_sys_de.Rules.{AlertRule, ScopeKind, every, tag, disk, effective_rule}
use rmm_rxf_sys_de.Rules.Effective.{effective_rule_lem, best, applies}

abbrev rule : ℕ → ScopeKind → String → AlertRule
rule id kind value = record {
  id = id;
  type = disk;
  enabled = true;
  threshold = none;
  scope_kind = kind;
  scope_value = value;
  created_at = 0;
}

abbrev rules : List AlertRule
rules = rule 1 every "" ∷ rule 2 tag "server" ∷ rule 3 tag "server" ∷ []

effective_rule_example :
    (effective_rule rules none disk ≡ none)
    × ((d : Device) → effective_rule rules (some d) disk ≡ best (applies d disk) rules)
effective_rule_example = effective_rule_lem rules disk

-- The first rule for the tag, before the rule for all.
effective_rule-server : effective_rule rules (some server) disk ≡ some (rule 2 tag "server")
effective_rule-server = (effective_rule_lem rules disk).1 server
