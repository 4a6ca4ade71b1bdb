-- ===== src/Api/App/Serving.antt =====
-- What the catch-all can hand out.
use astropath_dns_relay.Prelude.{
  true, ◌&&◌, ◌≡◌, List, [], ◌∷◌, ◌++◌, Text, contains, nat_eq, nat_beq, text_eq, text_beq_iff,
  ◌==◌, arith, All, refl, sym, ap, subst, ◌∙◌, ◌↔◌, ◌⊎◌, inl, inr, Bool-cases,
}
use astropath_dns_relay.Crypto.{Among, All-Among}
use astropath_dns_relay.Api.App.{
  spa_reserved_prefixes, first_segment, FilePath, is_relative_to, FileSystem, Served, not_found,
  file, spa,
}

-- A path below the directory.
abbrev pub IsBelow : FilePath → FilePath → Type 0
IsBelow root path = (rest : FilePath) × (path ≡ root ++ rest)

is_relative_to-IsBelow :
    (path root : FilePath) → is_relative_to path root ≡ true → IsBelow root path
unfolding is_relative_to
is_relative_to-IsBelow path [] h = (path, refl)
is_relative_to-IsBelow [] (r ∷ root) h = absurd (cc)
is_relative_to-IsBelow (c ∷ path) (r ∷ root) h =
    let (rest, e) = is_relative_to-IsBelow path root (ground arith) in
    (rest, ground (arith, e, text_beq_iff c r))

-- A path of one segment or of a segment and more.
abbrev pub StartsAt : Text → Text → Type 0
StartsAt segment path = (path ≡ segment) ⊎ ((rest : Text) × (path ≡ segment ++ (b'/' ∷ rest)))

first_segment-StartsAt : (path : Text) → StartsAt (first_segment path) path
unfolding first_segment
first_segment-StartsAt [] = inl refl
first_segment-StartsAt (c ∷ path) = elim (Bool-cases (nat_beq c b'/')) [
  | inl slash ↦ rw slash (inr (path, ground arith))
  | inr other ↦ rw other (longer (first_segment-StartsAt path))
]
  where
    longer : StartsAt (first_segment path) path → StartsAt (c ∷ first_segment path) (c ∷ path)
    longer (inl e) = inl (ap (λ s. c ∷ s) e)
    longer (inr (rest, e)) = inr (rest, ap (λ s. c ∷ s) e)

first_segment-append :
    (segment rest : Text)
    → first_segment segment ≡ segment
    → first_segment (segment ++ (b'/' ∷ rest)) ≡ segment
unfolding first_segment
first_segment-append [] rest h = refl
first_segment-append (c ∷ segment) rest h = elim (Bool-cases (nat_beq c b'/')) [
  | inl slash ↦ absurd (ground (arith, slash))
  | inr other ↦
      rw other (ap (λ s. c ∷ s) (first_segment-append segment rest (ground (arith, other))))
]

contains-Among : (xs : List Text) (a : Text) → contains xs a ≡ true → Among a xs
unfolding contains
contains-Among [] a h = absurd (cc)
contains-Among (x ∷ xs) a h = elim (Bool-cases (x == a)) [
  | inl same ↦ inl (sym ((text_beq_iff x a).0 same))
  | inr other ↦ inr (contains-Among xs a (ground (arith, other)))
]

Among-contains : (xs : List Text) (a : Text) → Among a xs → contains xs a ≡ true
unfolding contains
Among-contains [] a m = absurd m
Among-contains (x ∷ xs) a (inl e) = ground (arith, text_beq_iff x a)
Among-contains (x ∷ xs) a (inr m) = ground (arith, Among-contains xs a m)

-- No reserved prefix has a slash.
reserved_whole : All (λ s. first_segment s ≡ s) spa_reserved_prefixes
unfolding first_segment
reserved_whole = (refl, (refl, (refl, (refl, (refl, (refl, (refl, (refl, tt))))))))

-- The path is below a reserved prefix.
abbrev pub IsReserved : Text → Type 0
IsReserved path = (segment : Text) × Among segment spa_reserved_prefixes × StartsAt segment path

IsReserved-iff :
    (path : Text) → (contains spa_reserved_prefixes (first_segment path) ≡ true) ↔ IsReserved path
IsReserved-iff path = (
  λ h. (
    first_segment path,
    contains-Among spa_reserved_prefixes (first_segment path) h,
    first_segment-StartsAt path,
  ),
  λ (segment, m, starts).
      Among-contains spa_reserved_prefixes (first_segment path)
        (subst (λ s. Among s spa_reserved_prefixes) (sym (is segment m starts)) m),
)
  where
    is :
        (segment : Text)
        → Among segment spa_reserved_prefixes
        → StartsAt segment path
        → first_segment path ≡ segment
    is segment m (inl e) =
        ap first_segment e
        ∙ All-Among (λ s. first_segment s ≡ s) spa_reserved_prefixes segment reserved_whole m
    is segment m (inr (rest, e)) =
        ap first_segment e
        ∙ first_segment-append segment rest
            (All-Among (λ s. first_segment s ≡ s) spa_reserved_prefixes segment reserved_whole m)

-- A file is handed out only from below the directory.
abbrev pub IsConfined : FileSystem → FilePath → Served → Type 0
IsConfined fs root_resolved (file path) = (fs.is_file path ≡ true) × IsBelow root_resolved path
IsConfined fs root_resolved other = Unit

-- The catch-all answers 404 exactly for the paths that are a reserved prefix or go on after it with a
-- slash, so that it never hides an unknown route of the API or of operations. Whatever the path and
-- wherever it and its links resolve to, a file that it hands out is a file below the directory.
pub spa-IsConfined :
    (fs : FileSystem) (root root_resolved : FilePath) (path : Text)
    → ((spa fs root root_resolved path ≡ not_found) ↔ IsReserved path)
      × IsConfined fs root_resolved (spa fs root root_resolved path)
unfolding spa
spa-IsConfined fs root root_resolved path =
    let (there, back) = IsReserved-iff path in
    elim (Bool-cases (contains spa_reserved_prefixes (first_segment path))) [
      | inl reserved ↦ rw reserved ((λ h. there reserved, λ r. refl), tt)
      | inr free ↦
          let unserved : IsReserved path → ⊥ = λ r. let h = back r in cc in
          let candidate : FilePath = fs.resolve root path in
          elim (Bool-cases (path == [])) [
            | inl top ↦ rw (free, top) ((λ h. absurd (cc), λ r. absurd (unserved r)), tt)
            | inr deep ↦
                elim (Bool-cases (fs.is_file candidate && is_relative_to candidate root_resolved)) [
                  | inr shell ↦
                      rw (free, deep, shell) ((λ h. absurd (cc), λ r. absurd (unserved r)), tt)
                  | inl found ↦
                      rw (free, deep, found)
                        (
                          (λ h. absurd (cc), λ r. absurd (unserved r)),
                          (
                            ground (arith, found),
                            is_relative_to-IsBelow candidate root_resolved (ground (arith, found)),
                          ),
                        )
                ]
          ]
    ]
