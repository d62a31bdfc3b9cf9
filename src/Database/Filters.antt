-- ===== src/Database/Filters.antt =====
-- `class Filters` of app/database/database.py: the list of installed filters of an event.
use validation_node.Prelude.{ℕ, Bool, ◌&&◌, List, [], ◌∷◌, ◌++◌, eqb, if◌then◌else◌}
use validation_node.Prelude.Eq.{nat_eq}
use validation_node.Prelude.Dict.{update}
use validation_node.Database.Schema.{
  Ident, FilterName, join_event, state_transition, error_event, validation_started,
  validation_restart, dispute_triggered, event_failed, new_verity_event, FilterEntry, Db,
}

unfoldable pub filter_dict : Ident → FilterName → FilterEntry
filter_dict id name = record { filter_id = id; filter_name = name }

unfoldable pub create : Ident → Ident → FilterName → Db → Db
unfolding filter_dict
create event_id filter_id filter_name db = record db {
  filters =
      update event_id (db.filters event_id ++ filter_dict filter_id filter_name ∷ []) db.filters;
}

unfoldable pub get_list : Ident → Db → List FilterEntry
get_list event_id db = db.filters event_id

abbrev name_number : FilterName → ℕ
name_number join_event = 0
name_number state_transition = 1
name_number error_event = 2
name_number validation_started = 3
name_number validation_restart = 4
name_number dispute_triggered = 5
name_number event_failed = 6
name_number new_verity_event = 7

abbrev pub same_name : FilterName → FilterName → Bool
same_name a b = eqb (name_number a) (name_number b)

abbrev same_entry : FilterEntry → FilterEntry → Bool
same_entry a b = eqb a.filter_id b.filter_id && same_name a.filter_name b.filter_name

-- `LREM key 1`, with the number of deleted entries.
unfoldable pub lrem_entry : FilterEntry → List FilterEntry → ℕ × List FilterEntry
lrem_entry x [] = (0, [])
lrem_entry x (y ∷ ys) =
    let (n, rest) = lrem_entry x ys in if same_entry x y then (1, ys) else (n, y ∷ rest)

unfoldable pub delete_filter : Ident → Ident → FilterName → Db → ℕ × Db
unfolding lrem_entry filter_dict
delete_filter event_id filter_id filter_name db =
    let (n, rest) = lrem_entry (filter_dict filter_id filter_name) (db.filters event_id) in
    (n, record db { filters = update event_id rest db.filters })

-- `Filters.delete`
unfoldable pub delete : Ident → Db → Db
delete event_id db = record db { filters = update event_id [] db.filters }
