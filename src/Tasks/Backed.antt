-- ===== src/Tasks/Backed.antt =====
-- Where the tasks come from that the API returns, although its reads may be stale.
use mathlib.Core.List.{Memᴰ}
use tf_man.Prelude.{
  String, ◌≡◌, refl, sym, ◌∙◌, true, false, not, ◌&&◌, Option, none, some, List, [], ◌∷◌, All,
  All-mem, All-imp, str_eq, Bool-cases, inl, inr, arith,
}
use tf_man.Tasks.{
  Item, Table, Task, Env, Request, new_task, create_task, get_task, list_tasks, delete_task,
  handler,
}
use tf_man.Tasks.Honest.{
  asked, IsHonest, Backs, asked-kept, IsBacked, Fair, put-IsBacked, delete-IsBacked, more-IsBacked,
  found-IsHonest, page-IsHonest, read-IsHonest, written-Fair,
}

module _ (table : Table) where
  open table use {Db, get_item, put_item, delete_item, get-put, get-delete}

  -- Every read saw the table as it was at some time, a scan for each item of its own.
  pub record HasRead (states : List Db) (env : Env) : Type 0 where
    pub found :
        (i : String) (item : Item)
        → env.found i ≡ some item
        → (db : Db) × Memᴰ db states × (get_item i db ≡ some item)
    pub page :
        (item : Item)
        → Memᴰ item env.page
        → (i : String) × (db : Db) × Memᴰ db states × (get_item i db ≡ some item)

  -- The states of the table so far, newest first, and the tasks that were asked for.
  pub data Reach : Db → List Db → List Task → Type 0 where
    here : {db : Db} → ((i : String) → get_item i db ≡ none) → Reach db [] []
    next :
        {db : Db} {past : List Db} {made : List Task}
        → Reach db past made
        → (env : Env) (req : Request) → HasRead (db ∷ past) env
        → Reach (handler table env req db).1 (db ∷ past) (asked env req made)

  create-Fair :
      (made : List Task) (env : Env) (req : Request) (db : Db)
      → str_eq req.method "POST" ≡ true
      → IsBacked table made db
      → Fair table (asked env req made) req (create_task table env req.body db)
  unfolding asked create_task
  create-Fair made env req db p h = rw p (go req.body)
    where
      no_read : (a b : String) → str_eq req.method "POST" ≡ false → a ≡ b
      no_read a b q = absurd (ground (arith, p, q))

      go :
          (body : Option Task)
          → Fair table
              (elim body [ none ↦ made | some t ↦ new_task env t ∷ made ])
              req
              (create_task table env body db)
      go none = (tt, h)
      go (some t) =
          written-Fair table (new_task env t ∷ made) req env _ db _ (Memᴰ.head refl, no_read _ _)
            (more-IsBacked table made (new_task env t) db h)
            (put-IsBacked table made (new_task env t) db h)

  handler-Fair :
      (states : List Db) (made : List Task) (env : Env) (req : Request) (db : Db)
      → All (IsBacked table made) states
      → IsBacked table made db
      → HasRead states env
      → Fair table (asked env req made) req (handler table env req db)
  unfolding handler get_task list_tasks delete_task
  handler-Fair states made env req db all h reads = elim (Bool-cases (str_eq req.method "POST")) [
    | inl p ↦ rw p (create-Fair made env req db p h)
    | inr p ↦ rw (asked-kept env req made p) (elim (Bool-cases (str_eq req.method "GET")) [
      | inl g ↦ elim (Bool-cases (str_eq req.id "")) [
        | inl n ↦
            rw (p, g, n)
              (
                read-IsHonest table made req env _
                    (page-IsHonest table made req env.page from_page),
                h,
              )
        | inr n ↦
            rw (p, g, n)
              (
                read-IsHonest table made req env _
                    (found-IsHonest table made req (env.found req.id) from_get),
                h,
              )
      ]
      | inr g ↦ elim (Bool-cases (str_eq req.method "DELETE" && not (str_eq req.id ""))) [
        | inl d ↦
            rw (p, g, d)
              (written-Fair table made req env _ db _ tt h (delete-IsBacked table made req.id db h))
        | inr d ↦ rw (p, g, d) (tt, h)
      ]
    ])
  ]
    where
      from_get : (item : Item) → env.found req.id ≡ some item → Backs made req.id item
      from_get item e =
          let (view, m, f) = reads.found req.id item e in
          All-mem (IsBacked table made) states all m req.id item f

      from_page : (item : Item) → Memᴰ item env.page → (i : String) × Backs made i item
      from_page item k =
          let (i, view, m, f) = reads.page item k in
          (i, All-mem (IsBacked table made) states all m i item f)

  asked-All :
      (states : List Db) (made : List Task) (env : Env) (req : Request)
      → All (IsBacked table made) states
      → All (IsBacked table (asked env req made)) states
  unfolding asked
  asked-All states made env req all = elim (Bool-cases (str_eq req.method "POST")) [
    | inl p ↦ rw p (go req.body)
    | inr p ↦ rw p all
  ]
    where
      go :
          (body : Option Task)
          → All (IsBacked table (elim body [ none ↦ made | some t ↦ new_task env t ∷ made ])) states
      go none = all
      go (some t) = All-imp _ _ states (λ db h. more-IsBacked table made (new_task env t) db h) all

  Reach-IsBacked :
      {db : Db} {past : List Db} {made : List Task}
      → Reach db past made
      → All (IsBacked table made) (db ∷ past)
  Reach-IsBacked (here free) = ((λ i item e. absurd (no_item (sym (free i) ∙ e))), tt)
    where
      no_item : {x : Item} → none ≡ some x → ⊥
      no_item q = ground arith
  Reach-IsBacked (next {db} {past} {made} r env req reads) =
      let all = Reach-IsBacked r in
      (
        (handler-Fair (db ∷ past) made env req db all all.0 reads).1,
        asked-All (db ∷ past) made env req all,
      )

  -- From an empty table on, whatever the requests and whatever DynamoDB answers, with reads that saw
  -- the table as it was at any time, a scan for each item at a time of its own: no response is a
  -- panic; every task that a response returns is one that a request asked to be stored, with the id it
  -- got then and the status `pending` where it had none; and `GET` with an id returns a task of that id.
  pub Reach-IsHonest :
      {db : Db} {past : List Db} {made : List Task}
      → Reach db past made
      → (env : Env) (req : Request) → HasRead (db ∷ past) env
      → IsHonest (asked env req made) req (handler table env req db).0
  Reach-IsHonest {db} {past} {made} r env req reads =
      let all = Reach-IsBacked r in (handler-Fair (db ∷ past) made env req db all all.0 reads).0
