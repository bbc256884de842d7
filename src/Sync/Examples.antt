-- ===== src/Sync/Examples.antt =====
-- Tests of the synchroniser, and its theorems at concrete inputs.
use jornada_link.Common.{
  String, ◌≡◌, ◌≢◌, ◌⊎◌, inl, inr, refl, true, false, none, some, List, [], ◌∷◌, string_discrete,
  keep,
}
use mathlib.Core.Bool.{false≢true}
use text.Mathlib.TextEquality.{eq_iff}
use jornada_link.Sync.Model.{
  Model, Item, Options, create_local, create_remote, update_local, link, both, to_device,
  from_device, prefer_remote, prefer_local, fingerprint, writes_local, writes_remote, count,
  creates_remote,
}
use jornada_link.Sync.State.{Link, SyncState, initial, with_link, by_local}
use jornada_link.Sync.State.OneToOne.{IsOneToOne}
use jornada_link.Sync.State.Lookup.{by_local-with_link-apart}
use jornada_link.Sync.Linked.{plan_link, by_id}
use jornada_link.Sync.Linked.Updates.{plan_link-updates_local, plan_link-updates_remote}
use jornada_link.Sync.Pairing.{pair, pair_new}
use jornada_link.Sync.Pairing.Leftover.{ids, occurrences}
use jornada_link.Sync.Pairing.Once.{decided_local, decided_remote, pair_new-once}
use jornada_link.Sync.Plan.{plan}
use jornada_link.Sync.Plan.Permitted.{Permitted, plan-Permitted}
use jornada_link.Sync.Apply.{done, failed, Store, World, apply_loop, apply, empty_result}
use jornada_link.Sync.Apply.Accounting.{accounted, apply-accounts, apply-IsOneToOne}
use jornada_link.Sync.Apply.Untouched.{remote-apply-plan, local-apply-plan}
use jornada_link.Sync.Apply.Retry.{pair-failed_update}
use jornada_link.Sync.Refresh.{refresh_hashes, plan-refresh_hashes}

-- A note is its title and its text.
abbrev Note : Type 0
Note = String × String

instance abbrev note_model : Model Note
note_model = record { fingerprint = λ n. n.1; match_key = λ n. n.0 }

abbrev note : String → String → String → Item Note
note id title text = record { id = id; rec = (title, text); version = none }

-- A store that keeps the calls made of it, and one that fails every update.
abbrev recording : Store Note
recording = record {
  State = List String;
  create = λ s n. (done n.0, n.0 ∷ s);
  update = λ s id n. (done none, id ∷ s);
  delete = λ s id. (done tt, id ∷ s);
}

abbrev failing : Store Note
failing = record {
  State = List String;
  create = λ s n. (failed "offline", s);
  update = λ s id n. (failed "offline", s);
  delete = λ s id. (failed "offline", s);
}

abbrev two_way : Options
two_way = record { direction = both; prefer = prefer_remote; propagate_deletes = true }

abbrev pulling : Options
pulling = record { direction = to_device; prefer = prefer_local; propagate_deletes = true }

abbrev pushing : Options
pushing = record { direction = from_device; prefer = prefer_remote; propagate_deletes = false }

abbrev device : List (Item Note)
device = note "1" "milk" "one" ∷ note "2" "tea" "green" ∷ []

abbrev server : List (Item Note)
server = note "a" "milk" "two" ∷ note "b" "bread" "rye" ∷ []

abbrev milk_link : Link
milk_link = record { local_id = "1"; remote_id = "a"; local_hash = "one"; remote_hash = "one" }

abbrev tea_link : Link
tea_link = record { local_id = "2"; remote_id = "b"; local_hash = "green"; remote_hash = "rye" }

abbrev one_link : SyncState
one_link = record initial { links = milk_link ∷ [] }

abbrev two_links : SyncState
two_links = record initial { links = milk_link ∷ tea_link ∷ [] }

-- A first sync pairs the notes of one title, and the preferred side wins.
first_plan :
    plan device server initial two_way
    ≡ link "1" "a" ("milk", "one") "matched by content"
      ∷ update_local "1" "a" ("milk", "two") "changed on both sides; remote wins"
      ∷ create_remote "2" ("tea", "green") "new on the device"
      ∷ create_local "b" ("bread", "rye") "new remotely"
      ∷ []
unfolding plan string_discrete keep
first_plan = refl

plan-Permitted_example : Permitted pushing (plan device server one_link pushing)
plan-Permitted_example = plan-Permitted pushing device server one_link

pair_new-once_example :
    (decided_local (pair_new device server two_way) ≡ ids device)
    × ((k : String)
        → occurrences k (decided_remote (pair_new device server two_way))
          ≡ occurrences k (ids server))
pair_new-once_example = pair_new-once two_way device server

remote-apply-plan_example :
    (apply recording recording (plan device server one_link pulling) [] [] one_link "now").remote
    ≡ []
remote-apply-plan_example =
    remote-apply-plan recording recording pulling device server [] [] one_link "now" refl

local-apply-plan_example :
    (apply recording recording (plan device server one_link pushing) [] [] one_link "now").local
    ≡ []
local-apply-plan_example =
    local-apply-plan recording recording pushing device server [] [] one_link "now" refl

apply-accounts_example :
    accounted recording failing creates_remote
      (apply recording failing (plan device server initial two_way) [] [] initial "now")
    ≡ count creates_remote (plan device server initial two_way)
apply-accounts_example =
    apply-accounts recording failing creates_remote (plan device server initial two_way) [] []
      initial "now"

apply-IsOneToOne_example :
    IsOneToOne
      (apply recording failing
        (plan device server one_link two_way)
        []
        []
        one_link
        "now").current.links
apply-IsOneToOne_example =
    apply-IsOneToOne recording failing (plan device server one_link two_way) [] [] one_link "now"
      (tt, tt)

by_local-with_link_apart_example : by_local (with_link one_link tea_link).links "1" ≡ some milk_link
unfolding by_local string_discrete
by_local-with_link_apart_example =
    by_local-with_link-apart one_link tea_link milk_link "1" refl refl

plan_link-updates_local_example :
    (fingerprint (note "1" "milk" "one") ≡ milk_link.local_hash)
    ⊎ (fingerprint (note "1" "milk" "one") ≢ fingerprint (note "a" "milk" "two"))
      × (fingerprint (note "a" "milk" "two") ≢ milk_link.remote_hash)
      × ((two_way.prefer ≡ prefer_remote) ⊎ (writes_remote two_way ≡ false))
unfolding plan_link string_discrete
plan_link-updates_local_example =
    plan_link-updates_local milk_link (note "1" "milk" "one") (note "a" "milk" "two") two_way refl

plan_link-updates_remote_example :
    (fingerprint (note "a" "milk" "one") ≡ milk_link.remote_hash)
    ⊎ (fingerprint (note "1" "milk" "new") ≢ fingerprint (note "a" "milk" "one"))
      × (fingerprint (note "1" "milk" "new") ≢ milk_link.local_hash)
      × ((two_way.prefer ≡ prefer_local) ⊎ (writes_local two_way ≡ false))
unfolding plan_link string_discrete
plan_link-updates_remote_example =
    plan_link-updates_remote milk_link (note "1" "milk" "new") (note "a" "milk" "one") two_way refl

plan-refresh_hashes_example :
    plan device server (refresh_hashes two_links device server [] ("a" ∷ [])) two_way ≡ []
unfolding by_id string_discrete
plan-refresh_hashes_example =
    plan-refresh_hashes device server [] ("a" ∷ []) two_links two_way
      (
        ((note "1" "milk" "one", refl, inr refl), (note "a" "milk" "two", refl, inl refl)),
        (((note "2" "tea" "green", refl, inr refl), (note "b" "bread" "rye", refl, inr refl)), tt),
      )
      (refl, (refl, tt)) (refl, (refl, tt))

abbrev start : World recording failing
start = record { local = []; remote = []; current = initial; result = empty_result; log = [] }

pair-failed_update_example :
    let o : Options = record {
      direction = both;
      prefer = prefer_local;
      propagate_deletes = true;
    } in
    let x = note "1" "milk" "one" in
    let y = note "a" "milk" "two" in
    (l : Link) × (by_local (apply_loop recording failing (pair x y o) start).current.links "1"
      ≡ some l)
    × (plan_link l (some x) (some y) o
        ≡ update_local "1" "a" ("milk", "two") "changed remotely" ∷ [])
pair-failed_update_example =
    pair-failed_update recording failing (note "1" "milk" "one") (note "a" "milk" "two") true start
      "offline" (λ e. false≢true ((eq_iff "one" "two").1 e)) refl
