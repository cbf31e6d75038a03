-- ===== src/Service/Onus/Names.antt =====
-- internal/service/onu_service.go and internal/poller/optical.go: names and serial numbers that
-- the names cache has, put into a list that lacks them.
use zzte.Strings.{is_empty}
use zzte.Domain.{OnuListItem, OnuNameEntry}
use zzte.Prelude.{
  Bool, List, Map, Option, [], any, false, if◌then◌else◌, insert, int_eq, lookup, map, nat_eq, none,
  some, text_eq, true, ℤ, ◌&&◌, ◌∷◌,
}

-- `namesMap`: of two entries with one number the later counts
unfoldable pub names_map_from : Map ℤ OnuNameEntry → List OnuNameEntry → Map ℤ OnuNameEntry
names_map_from m [] = m
names_map_from m (n ∷ names) = names_map_from (insert n.onu_id n m) names

unfoldable pub names_map : List OnuNameEntry → Map ℤ OnuNameEntry
names_map names = names_map_from [] names

-- an item with the name and serial number of an entry
unfoldable pub named : OnuNameEntry → OnuListItem → OnuListItem
named n item = record item { name = n.name; serial_number = n.serial_number }

-- the write of the optical poller, which replaces any name
unfoldable pub put_name : Map ℤ OnuNameEntry → OnuListItem → OnuListItem
put_name m item = elim (lookup item.onu_id m) [ none ↦ item | some n ↦ named n item ]

-- the write of `GetONUList`, which fills empty names only
unfoldable pub fill_name : Map ℤ OnuNameEntry → OnuListItem → OnuListItem
fill_name m item = if is_empty item.name then put_name m item else item

-- whether that write finds an entry
unfoldable pub is_fillable : Map ℤ OnuNameEntry → OnuListItem → Bool
is_fillable m item =
    is_empty item.name && (elim (lookup item.onu_id m) [ none ↦ false | some _ ↦ true ])

-- `needsNames`
unfoldable pub needs_names : List OnuListItem → Bool
needs_names items = any (λ (item : OnuListItem). is_empty item.name) items

-- the merge of `GetONUList`, which counts only if it changed an item (`merged`)
unfoldable pub merge_names : List OnuNameEntry → List OnuListItem → Option (List OnuListItem)
merge_names names items =
    let m = names_map names in
    if any (is_fillable m) items then some (map (fill_name m) items) else none

-- the entry of an item, for the names cache
unfoldable pub to_name_entry : OnuListItem → OnuNameEntry
to_name_entry item = record {
  onu_id = item.onu_id;
  name = item.name;
  serial_number = item.serial_number;
}
