-- ===== src/Tasks/Honest.antt =====
-- Tasks that were asked for, and responses and tables with no others.
use mathlib.Core.List.{Memᴰ}
use tf_man.Prelude.{
  String, ◌≡◌, refl, sym, ap, subst, ◌∙◌, false, Option, none, some, List, [], ◌∷◌, str_eq,
  str_eq_iff, some-injective, if◌then◌else◌, Bool-cases, inl, inr, arith,
}
use tf_man.Net.{Answer-cases}
use tf_man.Tasks.{
  Item, Table, Task, Response, nothing, error, task, tasks, respond, panics, Env, Request, task_of,
  tasks_of, item_of, item_response, items_response, written, read,
}

-- The tasks that were asked to be stored, after a request.
unfoldable pub asked : Env → Request → List Task → List Task
asked env req made =
    if str_eq req.method "POST"
    then (elim req.body [
      | none ↦ made
      | some t ↦
          record {
            id = env.fresh;
            title = t.title;
            status = if str_eq t.status "" then "pending" else t.status;
          }
          ∷ made
    ])
    else made

-- A response returns tasks of a list only, that of one task with the id asked for, and is no panic.
abbrev pub IsHonest : List Task → Request → Response → Type 0
IsHonest made req panics = ⊥
IsHonest made req (respond code nothing) = Unit
IsHonest made req (respond code (error message)) = Unit
IsHonest made req (respond code (task t)) =
    Memᴰ t made × (str_eq req.method "POST" ≡ false → t.id ≡ req.id)
IsHonest made req (respond code (tasks ts)) = (t : Task) → Memᴰ t ts → Memᴰ t made

-- An item of the key is that of a task of the list.
abbrev pub Backs : List Task → String → Item → Type 0
Backs made i item = (t : Task) × (item ≡ item_of t) × (t.id ≡ i) × Memᴰ t made

task_of-item_of : (t : Task) → task_of (item_of t) ≡ some t
unfolding task_of
task_of-item_of t = refl

item_response-of : (t : Task) → item_response (some (item_of t)) ≡ respond 200 (task t)
unfolding item_response task_of
item_response-of t = refl

pub asked-kept :
    (env : Env) (req : Request) (made : List Task)
    → str_eq req.method "POST" ≡ false
    → asked env req made ≡ made
unfolding asked
asked-kept env req made p = rw p refl

record Listing (made : List Task) (items : List Item) : Type 0 where
  ts : List Task
  all_read : tasks_of items ≡ some ts
  backed : (t : Task) → Memᴰ t ts → Memᴰ t made

page-Listing :
    (made : List Task) (items : List Item)
    → ((item : Item) → Memᴰ item items → (i : String) × Backs made i item)
    → Listing made items
unfolding tasks_of
page-Listing made [] h = record { ts = []; all_read = refl; backed = λ t m. elim m [ ] }
page-Listing made (item ∷ items) h =
    let (i, (t, e, _, m)) = h item (Memᴰ.head refl) in
    let l = page-Listing made items λ x k. h x (Memᴰ.tail k) in
    record {
      ts = t ∷ l.ts;
      all_read = rw (e, task_of-item_of t, l.all_read) refl;
      backed = backed_cons t m l;
    }
  where
    backed_cons :
        (t : Task)
        → Memᴰ t made
        → (l : Listing made items) → (u : Task) → Memᴰ u (t ∷ l.ts)
        → Memᴰ u made
    backed_cons t m l u (Memᴰ.head e) = rw e m
    backed_cons t m l u (Memᴰ.tail k) = l.backed u k

module _ (table : Table) where
  open table use {Db, get_item, put_item, delete_item, get-put, get-delete}

  -- What the table holds is what was asked for.
  abbrev pub IsBacked : List Task → Db → Type 0
  IsBacked made db = (i : String) (item : Item) → get_item i db ≡ some item → Backs made i item

  pub put-IsBacked :
      (made : List Task) (t : Task) (db : Db)
      → IsBacked made db
      → IsBacked (t ∷ made) (put_item t.id (item_of t) db)
  put-IsBacked made t db h i item e = elim (Bool-cases (str_eq t.id i)) [
    | inl same ↦ (
      t,
      sym (some-injective (sym (get-put i t.id (item_of t) db ∙ rw same refl) ∙ e)),
      (str_eq_iff t.id i).0 same,
      Memᴰ.head refl,
    )
    | inr other ↦
        let (u, f, g, m) = h i item (sym (get-put i t.id (item_of t) db ∙ rw other refl) ∙ e) in
        (u, f, g, Memᴰ.tail m)
  ]

  pub delete-IsBacked :
      (made : List Task) (k : String) (db : Db)
      → IsBacked made db
      → IsBacked made (delete_item k db)
  delete-IsBacked made k db h i item e = elim (Bool-cases (str_eq k i)) [
    | inl same ↦ absurd (gone (sym (get-delete i k db ∙ rw same refl) ∙ e))
    | inr other ↦ h i item (sym (get-delete i k db ∙ rw other refl) ∙ e)
  ]
    where
      gone : {x : Item} → none ≡ some x → ⊥
      gone q = ground arith

  pub more-IsBacked :
      (made : List Task) (t : Task) (db : Db) → IsBacked made db → IsBacked (t ∷ made) db
  more-IsBacked made t db h i item e = let (u, f, g, m) = h i item e in (u, f, g, Memᴰ.tail m)

  -- What a request leaves and answers, for the tasks asked for by then.
  abbrev pub Fair : List Task → Request → Response × Db → Type 0
  Fair made req (r, db) = IsHonest made req r × IsBacked made db

  pub written-Fair :
      (made : List Task) (req : Request) (env : Env) (r : Response) (db after : Db)
      → IsHonest made req r
      → IsBacked made db
      → IsBacked made after
      → Fair made req (written env r db after)
  written-Fair made req env r db after honest h k = elim (Answer-cases env.answer) [
    | inl e ↦ rw e (honest, k)
    | inr (inl e) ↦ rw e (tt, h)
    | inr (inr e) ↦ rw e (tt, k)
  ]

  pub found-IsHonest :
      (made : List Task) (req : Request) (o : Option Item)
      → ((item : Item) → o ≡ some item → Backs made req.id item)
      → IsHonest made req (item_response o)
  unfolding item_response
  found-IsHonest made req none h = tt
  found-IsHonest made req (some item) h =
      let (t, e, named, m) = h item refl in
      subst (IsHonest made req) (sym (ap (λ x. item_response (some x)) e ∙ item_response-of t))
        (m, λ _. named)

  pub page-IsHonest :
      (made : List Task) (req : Request) (items : List Item)
      → ((item : Item) → Memᴰ item items → (i : String) × Backs made i item)
      → IsHonest made req (items_response items)
  unfolding items_response
  page-IsHonest made req items h = let l = page-Listing made items h in rw l.all_read l.backed

  pub read-IsHonest :
      (made : List Task) (req : Request) (env : Env) (r : Response)
      → IsHonest made req r
      → IsHonest made req (read env r)
  read-IsHonest made req env r h = elim (Answer-cases env.answer) [
    | inl e ↦ rw e h
    | inr (inl e) ↦ rw e tt
    | inr (inr e) ↦ rw e tt
  ]
