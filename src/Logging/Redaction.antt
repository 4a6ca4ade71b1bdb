-- ===== src/Logging/Redaction.antt =====
-- A value under a name that spells a secret does not reach the log.
use astropath_dns_relay.Prelude.{
  Bool, true, false, ◌≡◌, List, [], ◌∷◌, ◌++◌, map, Text, lower, contains, nat_eq, text_eq, All,
  arith, refl, subst, sym, inl, inr,
}
use astropath_dns_relay.Crypto.{Among}
use astropath_dns_relay.Logging.{
  redacted, deny_field_fragments, allow_fields, fold, begins_with, is_within, any_within,
  is_secret_key, scrub_value, Value, text, opaque, Key, str, other_key, Mapping, Item, mapping,
  single, Args, one_mapping, tuple, other_args, LogRecord, redact_value, redact_mapping,
  redact_item, redact_args, redact_attribute, redact_attributes, filter,
}

-- The name has a part that is a deny fragment, in letters of any case and with dashes or underscores,
-- and is not one of the allowed names.
pub record IsSecret (name : Text) : Type 0 where
  pub before : Text
  pub part : Text
  pub after : Text
  pub splits : name ≡ before ++ (part ++ after)
  pub denied : Among (fold part) deny_field_fragments
  pub unlisted : contains allow_fields (fold name) ≡ false

begins_with-append : (s t : Text) → begins_with s (s ++ t) ≡ true
unfolding begins_with
begins_with-append [] t = refl
begins_with-append (c ∷ s) t = ground (arith, begins_with-append s t)

is_within-append : (a s t : Text) → is_within s (a ++ (s ++ t)) ≡ true
unfolding is_within
is_within-append [] [] [] = refl
is_within-append [] [] (c ∷ t) = refl
is_within-append [] (c ∷ s) t = ground (arith, begins_with-append (c ∷ s) t)
is_within-append (c ∷ a) s t = ground (arith, is_within-append a s t)

any_within-Among :
    (fragments : List Text) (fragment s : Text)
    → Among fragment fragments
    → is_within fragment s ≡ true
    → any_within fragments s ≡ true
unfolding any_within
any_within-Among [] fragment s m h = absurd m
any_within-Among (f ∷ fragments) fragment s (inl e) h =
    let here : is_within f s ≡ true = subst (λ x. is_within x s ≡ true) e h in ground arith
any_within-Among (f ∷ fragments) fragment s (inr m) h =
    ground (arith, any_within-Among fragments fragment s m h)

fold-append : (a b : Text) → fold (a ++ b) ≡ fold a ++ fold b
unfolding fold lower
fold-append [] b = refl
fold-append (c ∷ a) b = ground (arith, fold-append a b)

is_secret_key-IsSecret : (name : Text) → IsSecret name → is_secret_key name ≡ true
unfolding is_secret_key
is_secret_key-IsSecret name s =
    let spelled : fold name ≡ fold s.before ++ (fold s.part ++ fold s.after) =
      rw (s.splits, fold-append s.before (s.part ++ s.after), fold-append s.part s.after) refl in
    let inside : is_within (fold s.part) (fold name) ≡ true =
      subst (λ x. is_within (fold s.part) x ≡ true) (sym spelled)
        (is_within-append (fold s.before) (fold s.part) (fold s.after)) in
    rw s.unlisted (any_within-Among deny_field_fragments (fold s.part) (fold name) s.denied inside)

-- A mapping's entry that is masked if its key is a secret's name.
abbrev pub HidesEntry : Key × Value → Type 0
HidesEntry (str name, value) = IsSecret name → value ≡ text redacted
HidesEntry (other_key k, value) = Unit

abbrev pub HidesItem : Item → Type 0
HidesItem (mapping m) = All HidesEntry m
HidesItem (single value) = Unit

abbrev pub HidesArgs : Args → Type 0
HidesArgs (one_mapping m) = All HidesEntry m
HidesArgs (tuple items) = All HidesItem items
HidesArgs (other_args a) = Unit

redact_value-HidesEntry : (key : Key) (value : Value) → HidesEntry (key, redact_value key value)
unfolding redact_value
redact_value-HidesEntry (str name) value = λ s. rw (is_secret_key-IsSecret name s) refl
redact_value-HidesEntry (other_key k) value = tt

redact_mapping-Hides : (m : Mapping) → All HidesEntry (redact_mapping m)
unfolding redact_mapping
redact_mapping-Hides [] = tt
redact_mapping-Hides ((key, value) ∷ m) =
    (redact_value-HidesEntry key value, redact_mapping-Hides m)

redact_items-Hides : (items : List Item) → All HidesItem (map redact_item items)
unfolding redact_item
redact_items-Hides [] = tt
redact_items-Hides (mapping m ∷ items) = (redact_mapping-Hides m, redact_items-Hides items)
redact_items-Hides (single value ∷ items) = (tt, redact_items-Hides items)

redact_args-HidesArgs : (args : Args) → HidesArgs (redact_args args)
unfolding redact_args
redact_args-HidesArgs (one_mapping m) = redact_mapping-Hides m
redact_args-HidesArgs (tuple items) = redact_items-Hides items
redact_args-HidesArgs (other_args a) = tt

module _ (reserved : Text → Bool) (patterns : List (Text → Text))
    (render : Text → Args → Text) where
  -- An attribute of the program's own that is masked if its name is a secret's.
  abbrev pub HidesAttribute : Text × Value → Type 0
  HidesAttribute (name, value) = reserved name ≡ false → IsSecret name → value ≡ text redacted

  redact_attribute-Hides :
      (name : Text) (value : Value)
      → HidesAttribute (name, redact_attribute reserved patterns render name value)
  unfolding redact_attribute
  redact_attribute-Hides name (text value) own s = rw (own, is_secret_key-IsSecret name s) refl
  redact_attribute-Hides name (opaque value) own s = rw (own, is_secret_key-IsSecret name s) refl

  redact_attributes-Hides :
      (attributes : List (Text × Value))
      → All HidesAttribute (redact_attributes reserved patterns render attributes)
  unfolding redact_attributes
  redact_attributes-Hides [] = tt
  redact_attributes-Hides ((name, value) ∷ attributes) =
      (redact_attribute-Hides name value, redact_attributes-Hides attributes)

  -- Take a name that has a deny fragment in it, whatever the case of its letters and with dashes for
  -- underscores or not, and that is not on the list of allowed names. After the filter, no attribute of
  -- the program's own under such a name has another value than the mask; the message is the scrubbed
  -- rendering with arguments whose mappings have none either; and the record has no arguments left
  -- from which a handler could render it again.
  pub filter-Hides :
      (entry : LogRecord)
      → All HidesAttribute (filter reserved patterns render entry).attributes
        × ((args : Args) × HidesArgs args
            × ((filter reserved patterns render entry).msg
                ≡ scrub_value patterns (render entry.msg args)))
        × ((filter reserved patterns render entry).args ≡ tuple [])
  unfolding filter
  filter-Hides entry = (
    redact_attributes-Hides entry.attributes,
    (redact_args entry.args, redact_args-HidesArgs entry.args, refl),
    refl,
  )
