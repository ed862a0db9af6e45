-- ===== src/Tasks.antt =====
-- serverless-api/src/main.go: the Lambda behind an HTTP API, which keeps tasks in a DynamoDB table.
pub mod Honest
pub mod Backed
mod Tests
use tf_man.Prelude.{
  ℕ, String, ◌≡◌, Bool, true, false, not, ◌&&◌, Option, none, some, List, [], ◌∷◌, str_eq,
  if◌then◌else◌,
}
use tf_man.Net.{Answer, done, refused, lost}

-- The attributes of an item; all of those that the code writes are strings.
abbrev pub Item : Type 0
Item = List (String × String)

-- The writes of DynamoDB, as far as the handlers use them: a table whose key is the attribute `id`.
-- `get_item` is what the table holds; what a read answers stands in Env, since GetItem and Scan are
-- called without ConsistentRead and so may miss the latest writes.
pub record Table : Type 1 where
  pub Db : Type 0
  pub get_item : String → Db → Option Item
  pub put_item : String → Item → Db → Db
  pub delete_item : String → Db → Db
  pub get-put :
      (i k : String) (item : Item) (db : Db)
      → get_item i (put_item k item db) ≡ (if str_eq k i then some item else get_item i db)
  pub get-delete :
      (i k : String) (db : Db)
      → get_item i (delete_item k db) ≡ (if str_eq k i then none else get_item i db)

pub record Task : Type 0 where
  pub id : String
  pub title : String
  pub status : String

-- What `respond` puts into the body.
pub data Body : Type 0 where
  nothing : Body
  error : String → Body
  task : Task → Body
  tasks : List Task → Body

-- A response, or a panic: a type assertion on an attribute that is not there.
pub data Response : Type 0 where
  respond : ℕ → Body → Response
  panics : Response

-- The UUID generator's answer, that of DynamoDB, what GetItem finds under a key, the page of items
-- that Scan returns, and the text of an error.
pub record Env : Type 0 where
  pub fresh : String
  pub found : String → Option Item
  pub page : List Item
  pub answer : Answer
  pub message : String

-- The method, the path parameter `id` (empty where there is none) and the decoded body (`none` where
-- decoding fails).
pub record Request : Type 0 where
  pub method : String
  pub id : String
  pub body : Option Task

pub attribute : String → Item → Option String
attribute name [] = none
attribute name ((key, value) ∷ item) = if str_eq key name then some value else attribute name item

-- The three type assertions, in their order.
pub task_of : Item → Option Task
unfolding attribute
task_of item = elim (attribute "id" item) [
  | none ↦ none
  | some i ↦ elim (attribute "title" item) [
    | none ↦ none
    | some t ↦ elim (attribute "status" item) [
      | none ↦ none
      | some s ↦ some (record { id = i; title = t; status = s })
    ]
  ]
]

abbrev pub add_task : Option Task → Option (List Task) → Option (List Task)
add_task (some t) (some ts) = some (t ∷ ts)
add_task _ _ = none

-- The loop of `listTasks`; `none` is a panic.
pub tasks_of : List Item → Option (List Task)
tasks_of [] = some []
tasks_of (item ∷ items) = add_task (task_of item) (tasks_of items)

-- The item that `createTask` puts.
abbrev pub item_of : Task → Item
item_of t = ("id", t.id) ∷ ("title", t.title) ∷ ("status", t.status) ∷ []

-- The task that `createTask` makes of the decoded one.
abbrev pub new_task : Env → Task → Task
new_task env t = record t {
  id = env.fresh;
  status = if str_eq t.status "" then "pending" else t.status;
}

-- The responses to what was read.
pub item_response : Option Item → Response
item_response none = respond 404 (error "not found")
item_response (some item) = elim (task_of item) [ none ↦ panics | some t ↦ respond 200 (task t) ]

abbrev pub tasks_response : Option (List Task) → Response
tasks_response none = panics
tasks_response (some ts) = respond 200 (tasks ts)

pub items_response : List Item → Response
items_response items = tasks_response (tasks_of items)

-- The response after a write, and what the table holds.
abbrev pub written : {D : Type 0} → Env → Response → D → D → Response × D
written env response before after = elim env.answer [
  | done ↦ (response, after)
  | refused ↦ (respond 500 (error env.message), before)
  | lost ↦ (respond 500 (error env.message), after)
]

-- The response after a read.
abbrev pub read : Env → Response → Response
read env response = elim env.answer [ done ↦ response | _ ↦ respond 500 (error env.message) ]

get_task : Env → String → Response
unfolding item_response task_of
get_task env id = read env (item_response (env.found id))

list_tasks : Env → Response
unfolding items_response tasks_of
list_tasks env = read env (items_response env.page)

module _ (table : Table) where
  open table use {Db, put_item, delete_item}

  create_task : Env → Option Task → Db → Response × Db
  create_task env none db = (respond 400 (error "invalid body"), db)
  create_task env (some t) db =
      let made = new_task env t in
      written env (respond 201 (task made)) db (put_item made.id (item_of made) db)

  delete_task : Env → String → Db → Response × Db
  delete_task env id db = written env (respond 204 nothing) db (delete_item id db)

  pub handler : Env → Request → Db → Response × Db
  unfolding create_task get_task list_tasks delete_task
  handler env req db =
      if str_eq req.method "POST"
      then create_task env req.body db
      else if str_eq req.method "GET" && not (str_eq req.id "")
      then (get_task env req.id, db)
      else if str_eq req.method "GET"
      then (list_tasks env, db)
      else if str_eq req.method "DELETE" && not (str_eq req.id "")
      then delete_task env req.id db
      else (respond 405 (error "method not allowed"), db)
