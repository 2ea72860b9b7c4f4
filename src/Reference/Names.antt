-- ===== src/Reference/Names.antt =====
-- The full name of a catalog entry is parsed back into its names.
use deltaswamp.Prelude.{
  Option, [], any, false, inl, inr, is_empty, map, none, refl, some, sym, ◌∙◌, ◌∷◌, ◌≡◌, ◌≢◌,
}
use deltaswamp.Prelude.Text.{codes}
use deltaswamp.Reference.Parse.{Defaults, TableRef, full_name, name_of, named, parse_name}
use deltaswamp.Reference.Quoting.{split_identifier-join_dots}
use deltaswamp.Reference.Split.{Text, join_dots, parsed, quote}
use deltaswamp.Reference.Whole.{IsNamed, IsWhole, ThreeNamed}
use deltaswamp.Table.{RefKind}

any-ThreeNamed : (c s t : Text) → ThreeNamed (c, s, t) → any is_empty (c ∷ s ∷ t ∷ []) ≡ false
unfolding any
any-ThreeNamed [] s t h = absurd (h.0)
any-ThreeNamed (x ∷ xs) [] t h = absurd (h.1)
any-ThreeNamed (x ∷ xs) (y ∷ ys) [] h = absurd (h.2)
any-ThreeNamed (x ∷ xs) (y ∷ ys) (z ∷ zs) h = refl

-- The names of a catalog entry, quoted and joined, are parsed back whatever the defaults are.
named_back :
    (d : Defaults) (c s t raw : Text)
    → ThreeNamed (c, s, t)
    → parse_name d (join_dots (map quote (c ∷ s ∷ t ∷ []))) raw
      ≡ parsed (named c s t (codes "uc") none raw)
unfolding parse_name name_of
named_back d c s t raw h =
    rw ((split_identifier-join_dots c (s ∷ t ∷ []) (any-ThreeNamed c s t h)).0) refl

-- The names of a reference, as data that a caller compares.
abbrev pub SameNames : TableRef → TableRef → Type 0
SameNames r q =
    (r.catalog_name ≡ q.catalog_name)
    × (r.schema_name ≡ q.schema_name)
    × (r.table_name ≡ q.table_name)

IsNamed-Three :
    (c s t : Text) → IsNamed (some c) → IsNamed (some s) → IsNamed (some t) → ThreeNamed (c, s, t)
IsNamed-Three c s t h g k = (h, g, k)

catalog-path : RefKind.catalog ≢ RefKind.path
catalog-path e = cc

full_name-named :
    (kind : RefKind) (d : Defaults) (raw : Text) (c s t : Option Text)
    (place scheme endpoint : Option Text) (old : Text)
    → kind ≡ RefKind.catalog
    → IsNamed c
    → IsNamed s
    → IsNamed t
    → let r : TableRef = record {
      kind = kind;
      catalog_name = c;
      schema_name = s;
      table_name = t;
      location = place;
      scheme = scheme;
      endpoint = endpoint;
      raw = old;
    } in
      (text : Text) × (q : TableRef) × (full_name r ≡ parsed text)
      × (parse_name d text raw ≡ parsed q)
      × SameNames r q
unfolding full_name
full_name-named RefKind.catalog d raw (some c) (some s) (some t) place scheme endpoint old e h g k =
    (
      join_dots (map quote (c ∷ s ∷ t ∷ [])),
      named c s t (codes "uc") none raw,
      refl,
      named_back d c s t raw (IsNamed-Three c s t h g k),
      (refl, refl, refl),
    )
full_name-named RefKind.catalog d raw none s t place scheme endpoint old e h g k = absurd h
full_name-named RefKind.catalog d raw (some c) none t place scheme endpoint old e h g k = absurd g
full_name-named RefKind.catalog d raw (some c) (some s) none place scheme endpoint old e h g k =
    absurd k
full_name-named RefKind.path d raw c s t place scheme endpoint old e h g k =
    absurd (catalog-path (sym e))

-- Every reference that is whole and names a catalog entry has a full name, and this is parsed back
-- into the same three names, whatever the defaults of the connection are and whatever characters
-- the names hold.
pub parse_name-full_name :
    (r : TableRef) (d : Defaults) (raw : Text)
    → IsWhole r
    → r.kind ≡ RefKind.catalog
    → (text : Text) × (q : TableRef) × (full_name r ≡ parsed text)
      × (parse_name d text raw ≡ parsed q)
      × SameNames r q
parse_name-full_name r d raw (inr w) e = absurd (catalog-path (sym e ∙ w.0))
parse_name-full_name r d raw (inl w) e =
    full_name-named r.kind d raw r.catalog_name r.schema_name r.table_name r.location r.scheme
      r.endpoint r.raw e w.1 w.2 w.3
