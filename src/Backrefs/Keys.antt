-- ===== src/Backrefs/Keys.antt =====
-- pkg/backrefs/keytorequest.go: a resource's name as the value of a label or an annotation, and back.
use image_registry_operator.Prelude.{
  ℕ, ◌≡◌, ap, ◌≢◌, ◌↔◌, refl, ◌∙◌, sym, true, false, ◌||◌, Option, none, some, List, [], ◌∷◌, ◌++◌,
  if◌then◌else◌, arith, append_assoc, Bool-cases, inl, inr, subst,
}
use mathlib.Core.Bool.{false≢true}
use image_registry_operator.Go.Text.{
  Text, is_empty, split_two, split_two-append, Lacks, Lacks-append, split_two-join, join_two,
}
use image_registry_operator.Go.Map.{Map, lookup, or_empty}
use image_registry_operator.Kube.Meta.{NamespacedName, ObjectMeta}

-- The separator ".".
abbrev pub separator : ℕ
separator = b'.'

unfoldable pub to_map_value : NamespacedName → Text
to_map_value n = n.name ++ separator ∷ n.namespace

-- A mapper reads the annotations or the labels of an object.
pub data KeyFn : Type 0 where
  annotations labels : KeyFn

abbrev key_fn : KeyFn → ObjectMeta → Map Text
key_fn annotations o = o.annotations
key_fn labels o = o.labels

unfoldable pub request_of : Text × Option Text → List NamespacedName
request_of (name, none) = []
request_of (name, some namespace) =
    if is_empty name || is_empty namespace
    then []
    else record { namespace = namespace; name = name } ∷ []

-- The requests of one map value.
unfoldable pub parse_value : Text → List NamespacedName
unfolding request_of
parse_value full_name =
    if is_empty full_name then [] else request_of (split_two separator full_name)

-- `keyToRequest.Map`, at the mapper that `AnnotationToRequest` or `LabelToRequest` returns.
unfoldable pub map_request : KeyFn → Text → ObjectMeta → List NamespacedName
map_request f key o = parse_value (or_empty (lookup key (key_fn f o)))

is_empty_append : (s : Text) (b : ℕ) (t : Text) → is_empty (s ++ b ∷ t) ≡ false
unfolding is_empty
is_empty_append [] b t = refl
is_empty_append (c ∷ s) b t = refl

is_empty_iff : (s : Text) → (is_empty s ≡ true) ↔ (s ≡ [])
unfolding is_empty
is_empty_iff [] = ground arith
is_empty_iff (c ∷ s) = ground arith

parse_value_lem :
    (a t : Text)
    → Lacks separator a
    → a ≢ []
    → t ≢ []
    → parse_value (a ++ separator ∷ t) ≡ record { namespace = t; name = a } ∷ []
unfolding parse_value
parse_value_lem a t plain named spaced =
    rw (is_empty_append a separator t, split_two-append separator a t plain)
      (ground (arith, is_empty_iff a, is_empty_iff t))

-- The map value of a resource is read back as the resource, if neither its name nor its namespace
-- is empty and the name has no separator.
pub parse_value-to_map_value :
    (n : NamespacedName)
    → Lacks separator n.name
    → n.name ≢ []
    → n.namespace ≢ []
    → parse_value (to_map_value n) ≡ n ∷ []
unfolding to_map_value
parse_value-to_map_value n = parse_value_lem n.name n.namespace

-- The map value of a resource name with a separator in it, behind a part that is not empty, is
-- read as one request, for another resource in another namespace.
pub parse_value_cuts :
    (a b namespace : Text)
    → Lacks separator a
    → a ≢ []
    → parse_value (to_map_value (record { namespace = namespace; name = a ++ separator ∷ b }))
      ≡ record { namespace = b ++ separator ∷ namespace; name = a } ∷ []
unfolding to_map_value
parse_value_cuts a b namespace plain named = rw append_assoc (
    parse_value_lem a (b ++ separator ∷ namespace) plain named λ e. false≢true (
      sym (is_empty_append b separator namespace)
      ∙ (is_empty_iff (b ++ separator ∷ namespace)).1 e))

request_of_sound :
    (before : Text) (behind : Option Text) (n : NamespacedName) (rest : List NamespacedName)
    → request_of (before, behind) ≡ n ∷ rest
    → (join_two separator before behind ≡ to_map_value n)
      × (before ≡ n.name)
      × (rest ≡ [])
      × (n.name ≢ [])
      × (n.namespace ≢ [])
unfolding request_of to_map_value
request_of_sound before none n rest e = ground arith
request_of_sound before (some behind) n rest e =
    ground (arith, is_empty_iff before, is_empty_iff behind)

-- A map value requests at most one resource. It is then one whose map value it is, with neither
-- part empty and no separator in its name.
pub parse_value_sound :
    (value : Text) (n : NamespacedName) (rest : List NamespacedName)
    → parse_value value ≡ n ∷ rest
    → (to_map_value n ≡ value)
      × (rest ≡ [])
      × (n.name ≢ [])
      × (n.namespace ≢ [])
      × Lacks separator n.name
unfolding parse_value
parse_value_sound value n rest e = elim (Bool-cases (is_empty value)) [
  | inl h ↦ cc (rw h at e)
  | inr h ↦
      let (joined, plain) = split_two-join separator value in
      let (same, name, last, named, spaced) =
        request_of_sound (split_two separator value).0 (split_two separator value).1 n rest
          (rw h at e) in
      (sym same ∙ joined, last, named, spaced, subst (Lacks separator) name plain)
]

-- A map value requests at most one resource. It requests a resource exactly if it is the map value
-- of that resource, whose name and namespace are not empty and whose name has no separator.
pub parse_value_iff :
    (value : Text) (n : NamespacedName) (rest : List NamespacedName)
    → (parse_value value ≡ n ∷ rest) ↔ (
        (value ≡ to_map_value n)
        × (rest ≡ [])
        × Lacks separator n.name
        × (n.name ≢ [])
        × (n.namespace ≢ []))
parse_value_iff value n rest = (
  λ h.
      let (same, last, named, spaced, plain) = parse_value_sound value n rest h in
      (sym same, last, plain, named, spaced),
  λ (same, last, plain, named, spaced).
      ap parse_value same
      ∙ parse_value-to_map_value n plain named spaced
      ∙ ap (λ l. n ∷ l) (sym last),
)

-- A map value has only the bytes of the name and the namespace, and the separator.
pub Lacks-to_map_value :
    (b : ℕ) (n : NamespacedName)
    → separator ≢ b
    → Lacks b n.name
    → Lacks b n.namespace
    → Lacks b (to_map_value n)
unfolding to_map_value
Lacks-to_map_value b n h k l = Lacks-append b n.name (separator ∷ n.namespace) k (h, l)
