-- ===== src/Tasks/Tests.antt =====
-- Requests to a table that is a function.
use mathlib.Core.List.{Memᴰ}
use tf_man.Prelude.{String, ◌≡◌, refl, Option, none, some, [], ◌∷◌, str_eq, if◌then◌else◌, arith}
use tf_man.Net.{done}
use tf_man.Tasks.{Item, Table, Task, Env, Request, new_task, handler, item_of}
use tf_man.Tasks.Honest.{asked, IsHonest}
use tf_man.Tasks.Backed.{HasRead, Reach, here, next, Reach-IsHonest}

abbrev Rows : Type 0
Rows = String → Option Item

abbrev rows_table : Table
rows_table = record {
  Db = Rows;
  get_item = λ i db. db i;
  put_item = λ k item db i. if str_eq k i then some item else db i;
  delete_item = λ k db i. if str_eq k i then none else db i;
  get-put = λ i k item db. refl;
  get-delete = λ i k db. refl;
}

abbrev tea : Task
tea = record { id = ""; title = "buy tea"; status = "" }

abbrev env : Env
env = record { fresh = "t1"; answer = done; message = ""; found = λ i. none; page = [] }

abbrev made_tea : Task
made_tea = new_task env tea

abbrev create_tea : Request
create_tea = record { method = "POST"; id = ""; body = some tea }

abbrev list_all : Request
list_all = record { method = "GET"; id = ""; body = none }

abbrev nothing_yet : Rows
nothing_yet i = none

abbrev with_tea : Rows
with_tea = (handler rows_table env create_tea nothing_yet).1

clash : {x : Item} → none ≡ some x → ⊥
clash q = ground arith

nothing_read : HasRead rows_table (nothing_yet ∷ []) env
nothing_read = record { found = λ i item e. absurd (clash e); page = λ item m. elim m [ ] }

created : Reach rows_table with_tea (nothing_yet ∷ []) (asked env create_tea [])
created = next (here (λ i. refl)) env create_tea nothing_read

abbrev listing : Env
listing = record env { page = item_of made_tea ∷ [] }

listing_read : HasRead rows_table (with_tea ∷ (nothing_yet ∷ [])) listing
unfolding handler
listing_read = record { found = λ i item e. absurd (clash e); page = from_page }
  where
    from_page :
        (item : Item)
        → Memᴰ item (item_of made_tea ∷ [])
        → (i : String) × (db : Rows) × Memᴰ db (with_tea ∷ (nothing_yet ∷ [])) × (db i ≡ some item)
    from_page item (Memᴰ.head e) = ("t1", with_tea, Memᴰ.head refl, rw e refl)
    from_page item (Memᴰ.tail m) = elim m [ ]

Reach-IsHonest_example :
    IsHonest
      (asked listing list_all (asked env create_tea []))
      list_all
      (handler rows_table listing list_all with_tea).0
Reach-IsHonest_example = Reach-IsHonest rows_table created listing list_all listing_read
