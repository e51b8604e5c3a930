-- ===== src/HttpClient/SdConfig.antt =====
-- client/http/client.go: `parseSDCfg`; app/app.go: the text that `New` hands to it;
-- client/sd/endpointer/endpointer.go: what is made of the result.
use tiki.Base.{
  ◌≤◌, ◌≡◌, refl, ap, ◌∙◌, false, List, [], ◌∷◌, ◌++◌, Option, none, some, arith, Str, codes,
  str_eq, str_eq_refl, if◌then◌else◌, Result, ok, err, length,
}
use tiki.Go.Maps.{Map, get, put}
use tiki.Go.Strings.{split, contains}
use tiki.Go.Strings.Laws.{
  Lacks, split_at, split_whole, split_absent, length-split, occurrences-append, occurrences_absent,
}

-- The `consul` case of the switch, on `strings.Split(info, "/")`.
abbrev consul_cfg : Str → List Str → Option (Map Str)
consul_cfg type (address ∷ datacenter ∷ []) = some (
    put (put (put [] (codes "type") type) (codes "address") address) (codes "datacenter")
      datacenter)
consul_cfg type _ = none

abbrev by_segments : List Str → Option (Map Str)
by_segments (type ∷ info ∷ rest) =
    if str_eq type (codes "consul") then consul_cfg type (split info (codes "/")) else none
by_segments _ = none

-- A nil map is `none`.
unfoldable pub parse_sd_cfg : Str → Option (Map Str)
parse_sd_cfg cfg = if str_eq cfg [] then none else by_segments (split cfg (codes "::"))

-- app.go: fmt.Sprintf("consul::%s/%s", consulCfg.Address, consulCfg.Datacenter)
unfoldable pub disc_info : Str → Str → Str
disc_info address datacenter = codes "consul::" ++ (address ++ b'/' ∷ datacenter)

-- NewConsulEndpointer: the tests on the map, then consul.NewClient, a parameter that gives an error
-- or none for an address and a datacenter.
abbrev at_key : Map Str → Str → Str
at_key m k = elim (get m k) [ none ↦ [] | some v ↦ v ]

abbrev pub or_error : Option Str → Result (Unit {0})
or_error none = ok tt
or_error (some e) = err e

unfoldable pub new_consul_endpointer :
    (Str → Str → Option Str) → Option (Map Str) → Result (Unit {0})
new_consul_endpointer new_client none = err (codes "empty cfg map")
new_consul_endpointer new_client (some m) = elim (get m (codes "type")) [
  | none ↦ err (codes "only consul sd supperted right now")
  | some type ↦
      if str_eq type (codes "consul")
      then or_error (new_client (at_key m (codes "address")) (at_key m (codes "datacenter")))
      else err (codes "only consul sd supperted right now")
]

split-disc_info :
    (address datacenter : Str)
    → contains (codes "::") (address ++ b'/' ∷ datacenter) ≡ false
    → split (disc_info address datacenter) (codes "::")
      ≡ codes "consul" ∷ (address ++ b'/' ∷ datacenter) ∷ []
unfolding disc_info split
split-disc_info address datacenter h =
    ap (λ (t : List Str). codes "consul" ∷ t) (split_absent _ (codes "::") h)

not_empty : (address datacenter : Str) → str_eq (disc_info address datacenter) [] ≡ false
unfolding disc_info str_eq
not_empty address datacenter = refl

parse_by_slash :
    (address datacenter : Str)
    → contains (codes "::") (address ++ b'/' ∷ datacenter) ≡ false
    → parse_sd_cfg (disc_info address datacenter)
      ≡ consul_cfg (codes "consul") (split (address ++ b'/' ∷ datacenter) (codes "/"))
unfolding parse_sd_cfg
parse_by_slash address datacenter h =
    rw (not_empty address datacenter, split-disc_info address datacenter h)
      (rw (str_eq_refl (codes "consul")))

-- The text that the application makes of its consul address and datacenter is parsed back to them,
-- and the endpointer connects to that address and datacenter, if neither holds a slash and the two
-- with the slash between them hold no `::`.
pub parse-disc_info :
    (new_client : Str → Str → Option Str) (address datacenter : Str)
    → Lacks b'/' address
    → Lacks b'/' datacenter
    → contains (codes "::") (address ++ b'/' ∷ datacenter) ≡ false
    → (m : Map Str) × (parse_sd_cfg (disc_info address datacenter) ≡ some m)
      × (get m (codes "type") ≡ some (codes "consul"))
      × (get m (codes "address") ≡ some address)
      × (get m (codes "datacenter") ≡ some datacenter)
      × (new_consul_endpointer new_client (some m) ≡ or_error (new_client address datacenter))
unfolding get put str_eq new_consul_endpointer
parse-disc_info new_client address datacenter la ld h = (
  put (put (put [] (codes "type") (codes "consul")) (codes "address") address) (codes "datacenter")
      datacenter,
  parse_by_slash address datacenter h
      ∙ rw (split_at b'/' address datacenter la, split_whole b'/' datacenter ld),
  refl,
  refl,
  refl,
  refl,
)

-- With a slash in the address, as in a URL with its scheme, nothing is parsed, and no endpointer
-- can be made.
pub parse-disc_info_slash :
    (new_client : Str → Str → Option Str) (address datacenter : Str)
    → ¬ Lacks b'/' address
    → contains (codes "::") (address ++ b'/' ∷ datacenter) ≡ false
    → (parse_sd_cfg (disc_info address datacenter) ≡ none)
      × (new_consul_endpointer new_client (parse_sd_cfg (disc_info address datacenter))
          ≡ err (codes "empty cfg map"))
unfolding new_consul_endpointer
parse-disc_info_slash new_client address datacenter slash h =
    let none_parsed = parse_by_slash address datacenter h ∙ too_many _ three in
    (none_parsed, ap (new_consul_endpointer new_client) none_parsed)
  where
    three : 3 ≤ length (split (address ++ b'/' ∷ datacenter) (codes "/"))
    three = ground (
      arith,
      length-split b'/' (address ++ b'/' ∷ datacenter),
      occurrences-append b'/' address (b'/' ∷ datacenter),
      occurrences_absent b'/' address,
    )

    too_many : (segs : List Str) → 3 ≤ length segs → consul_cfg (codes "consul") segs ≡ none
    too_many [] l = absurd (omega arith)
    too_many (a ∷ []) l = absurd (omega arith)
    too_many (a ∷ b ∷ []) l = absurd (omega arith)
    too_many (a ∷ b ∷ c ∷ r) l = refl
