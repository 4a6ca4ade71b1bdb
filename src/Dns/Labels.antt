-- ===== src/Dns/Labels.antt =====
-- A concrete `Name`: its labels, the leftmost first, with the root as the empty list.
use mathlib.Core.Option
use astropath_dns_relay.Dns.{DnsName}
use astropath_dns_relay.Prelude.{
  suc, ◌≡◌, refl, ◌↔◌, Bool, true, false, ◌&&◌, Option, none, some, List, [], ◌∷◌, ◌++◌, map, Text,
  String, codes, lower, lower_idem, text_beq, text_beq_iff, length, arith, nat_beq, if◌then◌else◌,
}

abbrev pub Labels : Type 0
Labels = List Text

unfoldable pub beq : Labels → Labels → Bool
beq [] [] = true
beq [] (_ ∷ _) = false
beq (_ ∷ _) [] = false
beq (a ∷ s) (b ∷ t) = text_beq (lower a) (lower b) && beq s t

unfoldable pub canonicalize : Labels → Labels
canonicalize n = map lower n

unfoldable pub parent : Labels → Option Labels
parent [] = none
parent (_ ∷ n) = some n

unfoldable pub to_text : Labels → Text
to_text [] = []
to_text (a ∷ n) = a ++ b'.' ∷ to_text n

push_label : Text → Option Labels → Option Labels
push_label [] rest = none
push_label (c ∷ cur) rest = Option.map (λ n. (c ∷ cur) ∷ n) rest

-- The last dot is optional, and an empty label is refused.
read_labels : Text → Text → Option Labels
read_labels [] [] = some []
read_labels (c ∷ cur) [] = some ((c ∷ cur) ∷ [])
read_labels cur (c ∷ s) =
    let rest = read_labels [] s in
    let more = read_labels (cur ++ c ∷ []) s in if nat_beq c b'.' then push_label cur rest else more

unfoldable pub from_text : Text → Option Labels
unfolding read_labels push_label
from_text s = read_labels [] s

pub beq_iff : (a b : Labels) → (beq a b ≡ true) ↔ (canonicalize a ≡ canonicalize b)
unfolding beq canonicalize
beq_iff [] [] = ground arith
beq_iff [] (b ∷ t) = ground arith
beq_iff (a ∷ s) [] = ground arith
beq_iff (a ∷ s) (b ∷ t) = ground (arith, text_beq_iff (lower a) (lower b), beq_iff s t)

pub canonicalize_idem : (a : Labels) → canonicalize (canonicalize a) ≡ canonicalize a
unfolding canonicalize
canonicalize_idem [] = refl
canonicalize_idem (a ∷ n) = ground (arith, lower_idem a, canonicalize_idem n)

pub parent-canonicalize :
    (a : Labels) → parent (canonicalize a) ≡ Option.map canonicalize (parent a)
unfolding canonicalize parent
parent-canonicalize [] = refl
parent-canonicalize (a ∷ n) = refl

pub depth_parent : (a b : Labels) → parent a ≡ some b → length a ≡ suc (length b)
unfolding parent
depth_parent [] b h = cc
depth_parent (a ∷ n) b h = ground arith

instance abbrev pub labels_dns : DnsName Labels
labels_dns = record {
  beq = beq;
  canonicalize = canonicalize;
  parent = parent;
  to_text = to_text;
  from_text = from_text;
  depth = length;
  beq_iff = beq_iff;
  canonicalize_idem = canonicalize_idem;
  parent-canonicalize = parent-canonicalize;
  depth_parent = depth_parent;
}

-- The tests' way to write a name.
unfoldable pub name : String → Labels
unfolding from_text
name s = Option.get_or (from_text (codes s)) []
