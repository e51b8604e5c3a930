-- ===== src/Instancer/Entries.antt =====
-- client/sd/instancer/consul_instancer.go: the entries of consul, their tags and their addresses. An
-- entry has a node and a service: the code reads both without a test.
use tiki.Base.{
  ◌≡◌, refl, sym, ap, ◌∙◌, subst, ◌↔◌, Bool, true, false, List, [], ◌∷◌, ◌++◌, Option, none, some,
  arith, Str, str_eq, str_eq_iff, if◌then◌else◌, Bool-cases, inl, inr, ℤ, All, ◌⊎◌,
}
use tiki.Go.Maps.{Map, get, put, get-put}
use tiki.Go.Strconv.{format_int}

-- consul.ServiceEntry. Nil tags are no tags.
pub record Entry : Type 0 where
  pub node_address : Str
  pub service_address : Str
  pub port : ℤ
  pub tags : List Str

-- `_, ok := ts[tag]`
unfoldable pub has_tag : List Str → Str → Bool
has_tag [] tag = false
has_tag (t ∷ ts) tag = if str_eq t tag then true else has_tag ts tag

-- The inner loop: at a tag that is missing, on to the next entry.
unfoldable pub has_all : List Str → List Str → Bool
unfolding has_tag
has_all [] ts = true
has_all (tag ∷ tags) ts = let rest = has_all tags ts in if has_tag ts tag then rest else false

unfoldable pub filter_entries : List Str → List Entry → List Entry
unfolding has_all
filter_entries tags [] = []
filter_entries tags (e ∷ es) =
    let rest = filter_entries tags es in if has_all tags e.tags then e ∷ rest else rest

-- `<address>:<port>`, where the service's own address goes before the node's.
unfoldable pub make_instance : Entry → Str
make_instance e =
    (if str_eq e.service_address [] then e.node_address else e.service_address)
    ++ b':' ∷ format_int e.port

unfoldable pub make_instances : List Entry → List Str
unfolding make_instance
make_instances [] = []
make_instances (e ∷ es) = make_instance e ∷ make_instances es

-- The loop that fills the tag map.
unfoldable pub add_tags : Map (List Str) → List Entry → Map (List Str)
add_tags m [] = m
add_tags m (e ∷ es) = add_tags (put m (make_instance e) e.tags) es

unfoldable pub make_tag_map : List Entry → Map (List Str)
unfolding add_tags
make_tag_map es = add_tags [] es

-- `if len(s.tags) > 1 { entries = filterEntries(entries, s.tags[1:]...) }`: consul itself filters by
-- the first tag.
unfoldable pub wanted : List Str → List Entry → List Entry
unfolding filter_entries
wanted [] es = es
wanted (t ∷ []) es = es
wanted (t ∷ u ∷ ts) es = filter_entries (u ∷ ts) es

-- Membership.
abbrev pub In : {A : Type 0} → A → List A → Type 0
In a [] = ⊥
In a (b ∷ l) = (a ≡ b) ⊎ In a l

has_tag-In : (ts : List Str) (tag : Str) → has_tag ts tag ≡ true → In tag ts
unfolding has_tag
has_tag-In [] tag h = absurd (ground arith)
has_tag-In (t ∷ ts) tag h = elim (Bool-cases (str_eq t tag)) [
  | inl y ↦ inl (sym ((str_eq_iff t tag).0 y))
  | inr n ↦ inr (has_tag-In ts tag (ground arith))
]

In-has_tag : (ts : List Str) (tag : Str) → In tag ts → has_tag ts tag ≡ true
unfolding has_tag
In-has_tag [] tag h = absurd h
In-has_tag (t ∷ ts) tag (inl e) = rw ((str_eq_iff t tag).1 (sym e))
In-has_tag (t ∷ ts) tag (inr h) = ground (arith, In-has_tag ts tag h)

has_all-All : (tags ts : List Str) → has_all tags ts ≡ true → All (λ t. In t ts) tags
unfolding has_all
has_all-All [] ts h = tt
has_all-All (tag ∷ tags) ts h =
    (has_tag-In ts tag (ground arith), has_all-All tags ts (ground arith))

All-has_all : (tags ts : List Str) → All (λ t. In t ts) tags → has_all tags ts ≡ true
unfolding has_all
All-has_all [] ts h = refl
All-has_all (tag ∷ tags) ts h = rw (In-has_tag ts tag h.0) (All-has_all tags ts h.1)

filter_sound :
    (tags : List Str) (es : List Entry) (e : Entry)
    → In e (filter_entries tags es)
    → In e es × All (λ t. In t e.tags) tags
unfolding filter_entries
filter_sound tags [] e h = absurd h
filter_sound tags (x ∷ es) e h = elim (Bool-cases (has_all tags x.tags)) [
  | inl y ↦ kept y (filter_sound tags es e) (rw y at h)
  | inr n ↦ let (i, a) = filter_sound tags es e (rw n at h) in (inr i, a)
]
  where
    kept :
        has_all tags x.tags ≡ true
        → (In e (filter_entries tags es) → In e es × All (λ t. In t e.tags) tags)
        → In e (x ∷ filter_entries tags es)
        → In e (x ∷ es) × All (λ t. In t e.tags) tags
    kept y ih (inl s) = (
      inl s,
      subst (λ (z : Entry). All (λ t. In t z.tags) tags) (sym s) (has_all-All tags x.tags y),
    )
    kept y ih (inr i) = let (j, a) = ih i in (inr j, a)

filter_complete :
    (tags : List Str) (es : List Entry) (e : Entry)
    → In e es
    → All (λ t. In t e.tags) tags
    → In e (filter_entries tags es)
unfolding filter_entries
filter_complete tags [] e h a = absurd h
filter_complete tags (x ∷ es) e (inl s) a =
    rw (ap (λ (z : Entry). has_all tags z.tags) (sym s) ∙ All-has_all tags e.tags a) (inl s)
filter_complete tags (x ∷ es) e (inr h) a = elim (Bool-cases (has_all tags x.tags)) [
  | inl y ↦ rw y (inr (filter_complete tags es e h a))
  | inr n ↦ rw n (filter_complete tags es e h a)
]

-- The filter keeps an entry exactly when it was there and has all the tags that are asked for.
pub filter_entries-In :
    (tags : List Str) (es : List Entry) (e : Entry)
    → In e (filter_entries tags es) ↔ (In e es × All (λ t. In t e.tags) tags)
filter_entries-In tags es e = (filter_sound tags es e, λ h. filter_complete tags es e h.0 h.1)

-- The tags of the last entry with this address.
abbrev pub last_tags : Str → List Entry → Option (List Str)
last_tags a [] = none
last_tags a (e ∷ es) = elim (last_tags a es) [
  | none ↦ if str_eq (make_instance e) a then some e.tags else none
  | some ts ↦ some ts
]

abbrev tags_or : Option (List Str) → Option (List Str) → Option (List Str)
tags_or none o = o
tags_or (some ts) o = some ts

get-add_tags :
    (m : Map (List Str)) (es : List Entry) (a : Str)
    → get (add_tags m es) a ≡ tags_or (last_tags a es) (get m a)
unfolding add_tags
get-add_tags m [] a = refl
get-add_tags m (e ∷ es) a = ground (
  arith,
  get-add_tags (put m (make_instance e) e.tags) es a,
  get-put m (make_instance e) a e.tags,
)

last_tags-In :
    (a : Str) (es : List Entry)
    → In a (make_instances es)
    → (ts : List Str) × (last_tags a es ≡ some ts)
unfolding make_instances
last_tags-In a [] h = absurd h
last_tags-In a (e ∷ es) (inl s) = go (last_tags a es) refl
  where
    go :
        (o : Option (List Str))
        → last_tags a es ≡ o
        → (ts : List Str) × (last_tags a (e ∷ es) ≡ some ts)
    go none n = (e.tags, rw (n, (str_eq_iff (make_instance e) a).1 (sym s)))
    go (some ts) y = (ts, rw y)
last_tags-In a (e ∷ es) (inr h) = let (ts, y) = last_tags-In a es h in (ts, rw y)

-- The tag map has, for every address, the tags of the last entry with that address; so every
-- instance that is published has its tags in the map.
pub make_tag_map-get :
    (es : List Entry) (a : Str)
    → (get (make_tag_map es) a ≡ last_tags a es)
      × (In a (make_instances es) → (ts : List Str) × (get (make_tag_map es) a ≡ some ts))
unfolding make_tag_map
make_tag_map-get es a = (found, λ h. let (ts, y) = last_tags-In a es h in (ts, found ∙ y))
  where
    drop_none : (o : Option (List Str)) → tags_or o (get [] a) ≡ o
    drop_none none = unfold get in refl
    drop_none (some ts) = refl

    found : get (add_tags [] es) a ≡ last_tags a es
    found = get-add_tags [] es a ∙ drop_none (last_tags a es)
