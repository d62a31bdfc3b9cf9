-- ===== src/Setup/Requests/Headers.antt =====
-- The headers of every response (app/application.py).
use validation_node.Prelude.{
  Option, none, some, [], ◌∷◌, ◌≡◌, refl, arith, if◌then◌else◌, Bool-cases, inl, inr,
}
use validation_node.Prelude.Eq.{HasNoRepeats, ◌==◌, list_eq, nat_eq, ==_iff}
use validation_node.Prelude.Dict.{Dict, keys, lookup, insert, lookup-insert_self, lookup-insert_ne}
use validation_node.Prelude.Dict.Keys.{lookup_absent}
use validation_node.Prelude.Texts.{codes}
use validation_node.Database.Schema.{Text}
use validation_node.Setup.Requests.{apply_headers}

-- What every response says, whatever the route set.
abbrev fixed : Dict Text Text
fixed =
    (codes "Content-Type", codes "application/json")
    ∷ (codes "Access-Control-Allow-Origin", codes "*")
    ∷ (
      codes "Access-Control-Allow-Headers",
      codes "Content-Type,X-Forwarded-For,HTTP_X_FORWARDED_FOR",
    )
    ∷ (codes "Access-Control-Allow-Methods", codes "POST,GET")
    ∷ (codes "Cache-Control", codes "no-cache")
    ∷ []

abbrev or_else : Option Text → Option Text → Option Text
or_else none d = d
or_else (some v) d = some v

lookup-insert :
    (k i v : Text) (d : Dict Text Text)
    → lookup k (insert i v d) ≡ (if k == i then some v else lookup k d)
lookup-insert k i v d = elim (Bool-cases (k == i)) [
  | inl same ↦ ground (arith, ==_iff k i, lookup-insert_self i v d)
  | inr other ↦ ground (arith, ==_iff k i, lookup-insert_ne k i v d)
]

insert_all : Dict Text Text → Dict Text Text → Dict Text Text
insert_all [] d = d
insert_all ((k, v) ∷ f) d = insert_all f (insert k v d)

lookup-insert_all :
    (k : Text) (f d : Dict Text Text)
    → HasNoRepeats (keys f)
    → lookup k (insert_all f d) ≡ or_else (lookup k f) (lookup k d)
unfolding insert_all
lookup-insert_all k [] d h = refl
lookup-insert_all k ((i, v) ∷ f) d (m, h) = ground (
  arith,
  lookup-insert_all k f (insert i v d) h,
  lookup-insert k i v d,
  lookup_absent k f,
  ==_iff k i,
  Bool-cases (k == i),
)

-- Whatever the route set, a response has the five headers with these values, and the other headers of the
-- route as they were.
pub lookup-apply_headers :
    (k : Text) (headers : Dict Text Text)
    → lookup k (apply_headers headers) ≡ or_else (lookup k fixed) (lookup k headers)
unfolding apply_headers insert_all
lookup-apply_headers k headers =
    lookup-insert_all k fixed headers (refl, (refl, (refl, (refl, (refl, tt)))))
