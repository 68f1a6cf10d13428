-- ===== src/Properties/Caching.antt =====
-- propertiescache.go: the cache of the properties beside properties that are made anew.
use Prim.Native.String.{String}
use mathlib.Core.Path.{ap₂}
use mathlib.Core.Option.{some-injective}
use cuirass.Prelude.{
  ◌≡◌, refl, sym, ap, ◌∙◌, Bool, true, false, Option, none, some, List, [], ◌∷◌, if◌then◌else◌, map,
}
use cuirass.Prelude.Maps.{Eq, lookup, insert, lookup-insert}
use cuirass.Properties.{
  PropertyFactory, PropertyReader, property_prefix, read_properties, new_command_properties,
  PropertyKey, property_key_eq, PropertyCache, cached_or_new, get_properties,
}

-- A call of `GetProperties`: its arguments, and what the configuration's factory reads then.
pub record Request (Config : Type 0) : Type 0 where
  pub cfg : Config
  pub factory : PropertyFactory
  pub name : String
  pub group : String

module _ {Config : Type 0} ⦃e : Eq Config⦄ where
  -- Calls in order, and what they return.
  pub get_all : List (Request Config) → PropertyCache Config → List PropertyReader
  get_all [] cache = []
  get_all (r ∷ rs) cache =
      let (p, cache') = get_properties r.cfg r.factory r.name r.group cache in p ∷ get_all rs cache'

  module _ (prefix_of : Config → String) where
    -- The prefix that a configuration reads never changes.
    abbrev pub KeepPrefix : List (Request Config) → Type 0
    KeepPrefix [] = Unit {0}
    KeepPrefix (r ∷ rs) = (property_prefix r.factory ≡ prefix_of r.cfg) × KeepPrefix rs

    -- What the cache holds for a key are the properties of that key.
    abbrev IsFaithful : PropertyCache Config → Type 0
    IsFaithful cache =
        (k : PropertyKey Config) (p : PropertyReader)
        → lookup k cache ≡ some p
        → p ≡ read_properties (prefix_of k.cfg) k.name k.group

    insert-IsFaithful :
        (k : PropertyKey Config) (cache : PropertyCache Config)
        → IsFaithful cache
        → IsFaithful (insert k (read_properties (prefix_of k.cfg) k.name k.group) cache)
    insert-IsFaithful k cache v j p h =
        by_key (property_key_eq.beq k j) (property_key_eq.beq_iff k j).0
          (sym (lookup-insert k j (read_properties (prefix_of k.cfg) k.name k.group) cache) ∙ h)
      where
        by_key :
            (b : Bool)
            → (b ≡ true → k ≡ j)
            → (if b
                then some (read_properties (prefix_of k.cfg) k.name k.group)
                else lookup j cache)
              ≡ some p
            → p ≡ read_properties (prefix_of j.cfg) j.name j.group
        by_key true q h' =
            sym (some-injective _ _ h')
            ∙ ap (λ (i : PropertyKey Config). read_properties (prefix_of i.cfg) i.name i.group)
                (q refl)
        by_key false q h' = v j p h'

    cached_or_new-IsFaithful :
        (k : PropertyKey Config) (f : PropertyFactory) (cache : PropertyCache Config)
        (o : Option PropertyReader)
        → lookup k cache ≡ o
        → property_prefix f ≡ prefix_of k.cfg
        → IsFaithful cache
        → ((cached_or_new k f cache o).0 ≡ new_command_properties f k.name k.group)
          × IsFaithful (cached_or_new k f cache o).1
    unfolding cached_or_new new_command_properties
    cached_or_new-IsFaithful k f cache (some p) q same v = (v k p q ∙ rw same refl, v)
    cached_or_new-IsFaithful k f cache none q same v = (refl, rw same (insert-IsFaithful k cache v))

    get_all-IsFaithful :
        (rs : List (Request Config)) (cache : PropertyCache Config)
        → IsFaithful cache
        → KeepPrefix rs
        → get_all rs cache ≡ map (λ r. new_command_properties r.factory r.name r.group) rs
    unfolding get_all get_properties
    get_all-IsFaithful [] cache v h = refl
    get_all-IsFaithful (r ∷ rs) cache v h =
        let k : PropertyKey Config = record { name = r.name; group = r.group; cfg = r.cfg } in
        let (same, v') = cached_or_new-IsFaithful k r.factory cache (lookup k cache) refl h.0 v in
        ap₂ ◌∷◌ same
          (get_all-IsFaithful rs (cached_or_new k r.factory cache (lookup k cache)).1 v' h.1)

    -- While no configuration changes the prefix of its names, the cache cannot be told from making
    -- the properties anew in each call: any calls of `GetProperties`, for any commands, groups and
    -- configurations, from the empty cache on, return what `newCommandProperties` makes then.
    pub get_all-map :
        (rs : List (Request Config))
        → KeepPrefix rs
        → get_all rs [] ≡ map (λ r. new_command_properties r.factory r.name r.group) rs
    unfolding lookup
    get_all-map rs h = get_all-IsFaithful rs [] (λ k p q. cc q) h
