-- ===== src/Service/Onus/Fetched.antt =====
-- What `GetONUList` answers when it asks the device, and what it answers afterwards.
use mathlib.Core.Path.{subst}
use zzte.Domain.{Onu, OnuListItem, Result, Result-cases, ok, err}
use zzte.Cache.{RedisCache}
use zzte.Snmp.Client.{Client, bulk_walk}
use zzte.Snmp.Oids.{oid_onu_status}
use zzte.Snmp.Values.{SnmpPdu}
use zzte.Service.Manager.{Devices, get_client, get_adapter}
use zzte.Service.Onus.Walks.{walk_oid, collect_onus}
use zzte.Service.Onus.Listing.{
  OnuService, ListCodec, Clock, list_items, or_absent, finish_list, fetch_onu_list, get_onu_list,
  cached_answer, cache_list,
}
use zzte.Service.Onus.Described.{described}
use zzte.Service.Onus.Reading.{collect_onus-eq-described}
use zzte.Service.Onus.Items.{
  collect_onus-IsKeyed, item_number, as_item, list_items-IsAscending, find_by-list_items,
}
use zzte.Prelude.{
  Bool, Bool-cases, IsAscending, List, Map, Option, Text, ap, find_by, inl, inr, int_eq, nat_eq,
  none, refl, some, sym, text_eq, true, ℤ, ◌∙◌, ◌≡◌,
}

module _ (codec : ListCodec) (devices : Devices) (acquired : Text → Bool) (clock : Clock)
    (olt_id : Text) (board pon : ℤ) (s : OnuService) where
  forced-misses :
      (c : Option RedisCache) → cached_answer codec true clock.asked olt_id board pon c ≡ none
  unfolding cached_answer
  forced-misses none = refl
  forced-misses (some c) = refl

  -- What was collected, of which an answer is made, and what is stored with it.
  abbrev IsMade :
      List OnuListItem
      → OnuService × Option (Result (List OnuListItem))
      → Option (Result (Map ℤ Onu))
      → Type 0
  IsMade items r collected =
      (onus : Map ℤ Onu) × (collected ≡ some (ok onus))
      × (list_items onus ≡ items)
      × (r.0.cache ≡ cache_list codec clock olt_id board pon items s.cache)

  finish_list-IsMade :
      (t : OnuService) (items : List OnuListItem) (collected : Option (Result (Map ℤ Onu)))
      → t.cache ≡ s.cache
      → (finish_list codec clock olt_id board pon t collected).1 ≡ some (ok items)
      → IsMade items (finish_list codec clock olt_id board pon t collected) collected
  unfolding finish_list
  finish_list-IsMade t items none c h = cc
  finish_list-IsMade t items (some (err e)) c h = cc
  finish_list-IsMade t items (some (ok onus)) c h =
      let same : list_items onus ≡ items = cc h in (onus, refl, same, cc (same, c))

  pub fetch_onu_list-IsMade :
      (items : List OnuListItem)
      → (fetch_onu_list codec devices acquired clock olt_id board pon s).1 ≡ some (ok items)
      → (client : Client) × (get_client olt_id s.manager ≡ ok client)
        × IsMade items (fetch_onu_list codec devices acquired clock olt_id board pon s) (
            collect_onus olt_id board pon
              (devices client)
              (or_absent (get_adapter olt_id s.manager)))
  unfolding fetch_onu_list
  fetch_onu_list-IsMade items h = elim (Result-cases (get_client olt_id s.manager)) [
    | inr (x, e) ↦ absurd (let q = rw (e, fetch_onu_list) at h in cc)
    | inl (client, e) ↦ elim (Bool-cases (acquired olt_id)) [
      | inr b ↦ absurd (let q = rw (e, b, fetch_onu_list) at h in cc)
      | inl b ↦ (
        client,
        e,
        rw (e, b, fetch_onu_list)
            (finish_list-IsMade _ items
              (collect_onus olt_id board pon (devices client)
                (or_absent (get_adapter olt_id s.manager)))
              refl (rw (e, b, fetch_onu_list) at h)),
      )
    ]
  ]

  pub get_onu_list-forced :
      get_onu_list codec devices acquired clock olt_id board pon true s
      ≡ fetch_onu_list codec devices acquired clock olt_id board pon s
  unfolding get_onu_list
  get_onu_list-forced = rw (forced-misses s.cache, get_onu_list) refl

  walked-statuses :
      (client : Client) (adapter : _) (onus : Map ℤ Onu)
      → collect_onus olt_id board pon (devices client) adapter ≡ some (ok onus)
      → (statuses : List SnmpPdu) × (bulk_walk
            (devices client)
            (walk_oid olt_id board pon oid_onu_status)
          ≡ ok statuses)
  unfolding collect_onus
  walked-statuses client adapter onus h =
      elim (Result-cases (bulk_walk (devices client) (walk_oid olt_id board pon oid_onu_status))) [
        | inl r ↦ r
        | inr (x, e) ↦ absurd (let q = rw (e, collect_onus) at h in cc)
      ]

-- A list that is read past the cache is sorted by number, without a number twice, and is what the
-- walks describe: the item of a number has the last state, name, serial number and power that the
-- device gave for it, an item is there exactly if some walk has the number, and there is none if
-- the walk of the states has no number at all.
pub get_onu_list-described :
    (codec : ListCodec) (devices : Devices) (acquired : Text → Bool) (clock : Clock) (olt_id : Text)
    (board pon : ℤ) (s : OnuService) (items : List OnuListItem)
    → (get_onu_list codec devices acquired clock olt_id board pon true s).1 ≡ some (ok items)
    → (client : Client) × (get_client olt_id s.manager ≡ ok client)
      × ((statuses : List SnmpPdu) × (bulk_walk
              (devices client)
              (walk_oid olt_id board pon oid_onu_status)
            ≡ ok statuses)
          × IsAscending item_number items
          × ((n : ℤ)
              → find_by item_number n items
                ≡ as_item (
                    described olt_id board pon
                      (devices client)
                      (or_absent (get_adapter olt_id s.manager))
                      statuses
                      n)))
get_onu_list-described codec devices acquired clock olt_id board pon s items h =
    let forced = get_onu_list-forced codec devices acquired clock olt_id board pon s in
    let (client, e, (onus, c, same, _)) =
      fetch_onu_list-IsMade codec devices acquired clock olt_id board pon s items
        (ap (λ r. r.1) (sym forced) ∙ h) in
    let adapter = or_absent (get_adapter olt_id s.manager) in
    let (statuses, walked) =
      walked-statuses codec devices acquired clock olt_id board pon s client adapter onus c in
    let keyed =
      collect_onus-IsKeyed olt_id board pon (devices client) adapter statuses onus walked c in
    (
      client,
      e,
      (
        statuses,
        walked,
        subst (IsAscending item_number) same (list_items-IsAscending onus keyed),
        λ n.
            ap (find_by item_number n) (sym same)
            ∙ find_by-list_items n onus keyed
            ∙ ap as_item (
                collect_onus-eq-described olt_id board pon (devices client) adapter statuses onus
                  walked c n),
      ),
    )
