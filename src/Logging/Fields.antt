-- ===== src/Logging/Fields.antt =====
-- logging/logger.go, logging/hook.go: which value a field of an entry has.
use tiki.Base.{
  ◌≡◌, refl, ap, ◌∙◌, List, [], ◌∷◌, Option, none, some, Str, codes, str_eq, if◌then◌else◌,
}
use tiki.Go.Maps.{Map, get, put, get-put}
use tiki.Logging.{LogType, fields_of, with_fields, Caller, source_of, fire}

module _ {V : Type 0} (show : V → Str) where
  -- The value of the last pair whose key is shown as `k`, or else `o`.
  abbrev pub last_value : Str → List V → Option V → Option V
  last_value k [] o = o
  last_value k (q ∷ []) o = o
  last_value k (q ∷ v ∷ rest) o = last_value k rest (if str_eq (show q) k then some v else o)

  fields_of-get :
      (k : Str) (kvs : List V) (fs : Map V)
      → get (fields_of show kvs fs) k ≡ last_value k kvs (get fs k)
  unfolding fields_of
  fields_of-get k [] fs = refl
  fields_of-get k (q ∷ []) fs = refl
  fields_of-get k (q ∷ v ∷ rest) fs =
      fields_of-get k rest (put fs (show q) v) ∙ ap (last_value k rest) (get-put fs (show q) k v)

  -- An entry that is logged with keys and values has the level and the message of the call, and under
  -- each name but `source` the value of the last pair whose key is shown so, where an odd last value is
  -- no key; `source` is the file, the line and the function of the caller wherever these are known,
  -- whatever the pairs say.
  pub fire-get :
      (text : Str → V) (base : Str → Str) (caller : Option Caller) (lt : LogType) (msg : Str)
      (kvs : List V) (k : Str)
      → let e = fire text base caller (with_fields show lt msg kvs) in
        (e.level ≡ lt)
        × (e.msg ≡ msg)
        × (get e.fields k ≡ (elim caller [
          | none ↦ last_value k kvs none
          | some c ↦
              if str_eq (codes "source") k
              then some (text (source_of base c))
              else last_value k kvs none
        ]))
  unfolding fire with_fields get
  fire-get text base none lt msg kvs k = (refl, refl, fields_of-get k kvs [])
  fire-get text base (some c) lt msg kvs k = (
    refl,
    refl,
    get-put (fields_of show kvs []) (codes "source") k (text (source_of base c))
        ∙ ap (λ o. if str_eq (codes "source") k then some (text (source_of base c)) else o)
            (fields_of-get k kvs []),
  )
