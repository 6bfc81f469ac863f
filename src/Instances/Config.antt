-- ===== src/Instances/Config.antt =====
-- server-instances.service.ts `normalizePath`, `mergeConfig`, `isDiscoveredManaged` and
-- `findMatchingDiscoveredInstance`.
use mathlib.Core.List.{reverse}
use mastermind_7dtd_ai_serve.Base.{
  ℕ, Bool, true, false, not, Option, none, some, List, [], ◌∷◌, map, ◌==◌, if◌then◌else◌,
  or_default, or_else, find_first, ◌≡◌, ◌∙◌, ◌⊎◌, unless_true,
}
use mastermind_7dtd_ai_serve.Base.Text.{Text, lit, text_eq, text_eq_refl, trim, to_lower}
use mastermind_7dtd_ai_serve.Schema.{
  Json, null, bool, num, str, obj, Fields, end, get_field, set_field, spread, get_field-set_field,
  get_field-spread,
}
use mastermind_7dtd_ai_serve.Fleet.{Instance}

slashed : ℕ → ℕ
slashed c = if c == b'\\' then b'/' else c

drop_slashes : Text → Text
drop_slashes [] = []
drop_slashes (c ∷ s) = let rest = drop_slashes s in if c == b'/' then rest else c ∷ s

unfoldable pub normalize_path : Option Text → Text
unfolding slashed drop_slashes
normalize_path path =
    to_lower (reverse (drop_slashes (reverse (map slashed (trim (or_default path []))))))

-- `findMatchingDiscoveredInstance`.
unfoldable pub find_matching : List Instance → Option Text → Option Instance
find_matching rows none = none
find_matching rows (some path) =
    find_first (λ s. text_eq (normalize_path s.install_path) (normalize_path (some path))) rows

-- The fields of a value that is an object and not an array; no fields otherwise.
abbrev pub fields_of : Option Json → Fields
fields_of (some (obj fs)) = fs
fields_of _ = end

unfoldable pub merge_config : Option Json → Option Fields → Fields
merge_config existing none = fields_of existing
merge_config existing (some incoming) =
    let base = fields_of existing in
    set_field (lit "discovery")
      (obj (
        spread (fields_of (get_field (lit "discovery") base))
          (fields_of (get_field (lit "discovery") incoming))))
      (spread base incoming)

-- JavaScript's `Boolean(value)`.
abbrev truthy : Option Json → Bool
truthy none = false
truthy (some null) = false
truthy (some (bool b)) = b
truthy (some (num n)) = not (n == 0)
truthy (some (str [])) = false
truthy (some _) = true

unfoldable pub is_discovered_managed : Option Json → Bool
is_discovered_managed config =
    truthy (
      get_field (lit "managedByAgent") (fields_of (get_field (lit "discovery") (fields_of config))))

-- Discovery keeps the stored configuration: each property other than `discovery` has the discovered
-- value if there is one and the stored value otherwise, and so has each property inside `discovery`.
merge_config_fields :
    (existing : Option Json) (incoming : Fields) (k : Text)
    → ((text_eq (lit "discovery") k ≡ true)
        ⊎ (get_field k (merge_config existing (some incoming))
            ≡ or_else (get_field k incoming) (get_field k (fields_of existing))))
      × (get_field k
            (fields_of (get_field (lit "discovery") (merge_config existing (some incoming))))
          ≡ or_else
              (get_field k (fields_of (get_field (lit "discovery") incoming)))
              (get_field k (fields_of (get_field (lit "discovery") (fields_of existing)))))
unfolding merge_config
merge_config_fields existing incoming k =
    let inner =
      spread (fields_of (get_field (lit "discovery") (fields_of existing)))
        (fields_of (get_field (lit "discovery") incoming)) in
    let outer = spread (fields_of existing) incoming in
    (
      unless_true (text_eq (lit "discovery") k) (λ other.
          get_field-set_field (lit "discovery") k (obj inner) outer
          ∙ (rw other (get_field-spread k (fields_of existing) incoming))),
      rw
          (
            get_field-set_field (lit "discovery") (lit "discovery") (obj inner) outer,
            text_eq_refl (lit "discovery"),
          )
          (get_field-spread k (fields_of (get_field (lit "discovery") (fields_of existing)))
            (fields_of (get_field (lit "discovery") incoming))),
    )
