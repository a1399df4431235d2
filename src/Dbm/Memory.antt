-- ===== src/Dbm/Memory.antt =====
-- A store in memory that meets what the models assume of tkrzw: its records are a function.
use juicemud.Base.{◌≡◌, ◌≢◌, refl, Text, Option, none, some, [], Bool, true, false}
use juicemud.Dbm.{Bytes, Status, success, not_found, View, update, process_all, Tkrzw}

abbrev get_record : Option Bytes → Bytes × Status
get_record none = ([], not_found)
get_record (some b) = (b, success)

abbrev set_in : View → Text → Bytes → Option Bytes → Bool → View × Status
set_in v k b old true = (update v k (some b), success)
set_in v k b none false = (update v k (some b), success)
set_in v k b (some _) false = (v, success)

pub get_record-success : (o : Option Bytes) → (get_record o).1 ≡ success → o ≡ some (get_record o).0
get_record-success none h = absurd (cc)
get_record-success (some b) h = refl

pub get_record-not_found : (o : Option Bytes) → (get_record o).1 ≡ not_found → o ≡ none
get_record-not_found none h = refl
get_record-not_found (some b) h = absurd (cc)

abbrev remove_in : View → Text → Option Bytes → View × Status
remove_in v k none = (v, not_found)
remove_in v k (some b) = (update v k none, success)

pub remove_in-success :
    (v : View) (k : Text) (o : Option Bytes)
    → (remove_in v k o).1 ≡ success
    → (j : Text) → (remove_in v k o).0 j ≡ update v k none j
remove_in-success v k none h j = absurd (cc)
remove_in-success v k (some b) h j = refl

pub remove_in-missing :
    (v : View) (k : Text) (o : Option Bytes) → o ≡ none → (remove_in v k o).1 ≢ success
remove_in-missing v k none e h = cc
remove_in-missing v k (some b) e h = cc

abbrev pub memory : Tkrzw
memory = record {
  Db = View;
  view = λ v. v;
  get = λ v k. get_record (v k);
  set_record = λ v k b overwrite. set_in v k b (v k) overwrite;
  remove = λ v k. remove_in v k (v k);
  process_multi = λ v ps write s. let r = process_all v ps s in (r.0, r.1, success);
  get_success = λ v k. get_record-success (v k);
  get_not_found = λ v k. get_record-not_found (v k);
  set_record_success = λ v k b h j. refl;
  remove_success = λ v k h. remove_in-success v k (v k) h;
  remove_missing = λ v k e. remove_in-missing v k (v k) e;
  process_multi_success = λ v ps s h. ((λ j. refl), refl);
}
