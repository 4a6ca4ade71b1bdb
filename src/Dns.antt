-- ===== src/Dns.antt =====
-- The names of dnspython (`dns.name.Name`), which the program only calls: a parameter of the model.
pub mod Labels
use mathlib.Core.Option
use astropath_dns_relay.Prelude.{
  ℕ, suc, ◌≡◌, ◌↔◌, Bool, true, Option, none, some, Text, Eq, ◌<◌, ◌+◌,
}

-- What the program relies on. `beq` is `Name.__eq__`, which ignores case; `parent` is `none` where
-- the library raises `NoParent`; `from_text` is `none` where it raises on a malformed name.
pub record DnsName (N : Type 0) : Type 0 where
  pub beq : N → N → Bool
  pub canonicalize : N → N
  pub parent : N → Option N
  pub to_text : N → Text
  pub from_text : Text → Option N
  pub depth : N → ℕ
  pub beq_iff : (a b : N) → (beq a b ≡ true) ↔ (canonicalize a ≡ canonicalize b)
  pub canonicalize_idem : (a : N) → canonicalize (canonicalize a) ≡ canonicalize a
  pub parent-canonicalize : (a : N) → parent (canonicalize a) ≡ Option.map canonicalize (parent a)
  pub depth_parent : (a b : N) → parent a ≡ some b → depth a ≡ suc (depth b)

instance abbrev pub name_eq : {N : Type 0} ⦃d : DnsName N⦄ → Eq N
name_eq ⦃d⦄ = record { beq = d.beq; norm = d.canonicalize; beq_iff = d.beq_iff }

module _ {N : Type 0} ⦃d : DnsName N⦄ where
  -- The name after `k` steps to the parent.
  unfoldable pub up : ℕ → N → Option N
  up ℕ.zero n = some n
  up (suc k) n = elim (d.parent n) [ none ↦ none | some p ↦ up k p ]
