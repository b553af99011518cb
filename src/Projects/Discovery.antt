-- ===== src/Projects/Discovery.antt =====
-- Lemmas on `List` of internal/store/projects.go, read by project id.
use self_organizing_multi_ag.Base.{
  String, ◌≡◌, refl, sym, subst, Bool, true, false, Option, none, some, List, [], ◌∷◌, map, arith,
  ◌==◌, eq_iff, if◌then◌else◌,
}
use self_organizing_multi_ag.Db.{Db, Project, Membership}
use self_organizing_multi_ag.Table.{find, select, place, order_by, keep_if, map_row, IsKeyed}
use self_organizing_multi_ag.Projects.{project_before, discoverable, shown, listing, list_projects}
use self_organizing_multi_ag.Members.{project_key, member}
use self_organizing_multi_ag.Scope.{is_open, is_active}

module _ {R : Type 0} (key : R → String) where
  absent-select :
      (p : R → Bool) (k : String) (t : List R)
      → find key k t ≡ none
      → find key k (select p t) ≡ none
  unfolding find select
  absent-select p k [] e = refl
  absent-select p k (r ∷ t) e = ground (arith, absent-select p k t)

  find-select :
      (p : R → Bool) (k : String) (t : List R)
      → IsKeyed key t
      → find key k (select p t) ≡ keep_if p (find key k t)
  unfolding find select
  find-select p k [] h = refl
  find-select p k (r ∷ t) h =
      ground (arith, find-select p k t h.1, absent-select p k t, eq_iff (key r) k)

  IsKeyed-select : (p : R → Bool) (t : List R) → IsKeyed key t → IsKeyed key (select p t)
  unfolding select
  IsKeyed-select p [] h = tt
  IsKeyed-select p (r ∷ t) h = ground (arith, IsKeyed-select p t h.1, absent-select p (key r) t)

  find-place :
      (before : R → R → Bool) (k : String) (r : R) (t : List R)
      → find key (key r) t ≡ none
      → find key k (place before r t) ≡ (if key r == k then some r else find key k t)
  unfolding find place
  find-place before k r [] e = refl
  find-place before k r (x ∷ t) e =
      ground
        (arith, find-place before k r t, eq_iff (key r) k, eq_iff (key x) k, eq_iff (key x) (key r))

  find-order_by :
      (before : R → R → Bool) (k : String) (t : List R)
      → IsKeyed key t
      → find key k (order_by before t) ≡ find key k t
  unfolding find order_by
  find-order_by before k [] h = refl
  find-order_by before k (r ∷ t) h = ground (
    arith,
    find-place before k r (order_by before t),
    find-order_by before (key r) t h.1,
    find-order_by before k t h.1,
  )

  find-map :
      (f : R → R) (keeps : (r : R) → key (f r) ≡ key r) (k : String) (t : List R)
      → find key k (map f t) ≡ map_row f (find key k t)
  unfolding find
  find-map f keeps k [] = refl
  find-map f keeps k (r ∷ t) = ground (arith, keeps r, find-map f keeps k t)

shown_key :
    (db : Db) (agent : String) (p : Project) → project_key (shown db agent p) ≡ project_key p
shown_key db agent p = ground arith

-- The row `out` of a list says of the project `r` that it exists, and nothing of its owner or its aims.
abbrev pub Reduced : Project → Option Project → Type 0
Reduced r out =
    (s : Project) × (out ≡ some s)
    × (s.project_id ≡ r.project_id)
    × (s.name ≡ r.name)
    × (s.visibility ≡ r.visibility)
    × (s.membership_policy ≡ r.membership_policy)
    × (s.status ≡ r.status)
    × (s.objective ≡ "")
    × (s.owner ≡ "")
    × (s.pending_owner ≡ none)
    × (s.created_at ≡ 0)
    × (s.metadata ≡ "{}")

-- What the agent is to find of a closed project where it has a row, by whether the row is active and
-- whether it owns the project.
abbrev pub DisclosesSeat : Bool → Bool → Project → Option Project → Type 0
DisclosesSeat true own r out = out ≡ some r
DisclosesSeat false true r out = out ≡ some r
DisclosesSeat false false r out = Reduced r out

-- The same where it has no row, by whether the project is listed.
abbrev pub DisclosesListing : Bool → Bool → Project → Option Project → Type 0
DisclosesListing true own r out = DisclosesSeat false own r out
DisclosesListing false own r out = out ≡ none

abbrev pub DisclosesClosed : String → Project → Option Membership → Option Project → Type 0
DisclosesClosed agent r none out = DisclosesListing r.listed (r.owner == agent) r out
DisclosesClosed agent r (some m) out = DisclosesSeat (is_active m.status) (r.owner == agent) r out

abbrev pub DisclosesRow : Bool → String → Project → Option Membership → Option Project → Type 0
DisclosesRow true agent r o out = out ≡ some r
DisclosesRow false agent r o out = DisclosesClosed agent r o out

-- What it is to find of the project in the table.
abbrev pub Discloses : String → Db → Option Project → Option Project → Type 0
Discloses agent db none out = out ≡ none
Discloses agent db (some r) out =
    DisclosesRow (is_open r.visibility) agent r (member r.project_id agent db) out

as_listing : (r : Project) (out : Option Project) → out ≡ some (listing r) → Reduced r out
as_listing r out e = (listing r, e, refl, refl, refl, refl, refl, refl, refl, refl, refl, refl)

module _ (agent : String) (db : Db) (r : Project) where
  abbrev row_of_list : Option Project
  row_of_list = map_row (shown db agent) (keep_if (discoverable db agent) (some r))

  seat_row :
      (m : Membership) (active own : Bool)
      → is_open r.visibility ≡ false
      → member r.project_id agent db ≡ some m
      → is_active m.status ≡ active
      → (r.owner == agent) ≡ own
      → DisclosesSeat active own r row_of_list
  seat_row m true own closed e a o = ground arith
  seat_row m false true closed e a o = ground arith
  seat_row m false false closed e a o = as_listing r row_of_list (ground arith)

  listing_row :
      (listed own : Bool)
      → is_open r.visibility ≡ false
      → member r.project_id agent db ≡ none
      → r.listed ≡ listed
      → (r.owner == agent) ≡ own
      → DisclosesListing listed own r row_of_list
  listing_row true true closed e l o = ground arith
  listing_row true false closed e l o = as_listing r row_of_list (ground arith)
  listing_row false own closed e l o = ground arith

  closed_row :
      (o : Option Membership)
      → is_open r.visibility ≡ false
      → member r.project_id agent db ≡ o
      → DisclosesClosed agent r o row_of_list
  closed_row none closed e = listing_row r.listed (r.owner == agent) closed e refl refl
  closed_row (some m) closed e =
      seat_row m (is_active m.status) (r.owner == agent) closed e refl refl

  known_row :
      (b : Bool)
      → is_open r.visibility ≡ b
      → DisclosesRow b agent r (member r.project_id agent db) row_of_list
  known_row true opened = ground arith
  known_row false closed = closed_row (member r.project_id agent db) closed refl

project_row :
    (agent : String) (db : Db) (o : Option Project)
    → Discloses agent db o (map_row (shown db agent) (keep_if (discoverable db agent) o))
project_row agent db none = refl
project_row agent db (some r) = known_row agent db r (is_open r.visibility) refl

-- The row of a list at an id, by the code's own filter and reduction.
found_row :
    (agent : String) (db : Db) (k : String)
    → IsKeyed project_key db.projects
    → find project_key k (list_projects agent db)
      ≡ map_row (shown db agent) (keep_if (discoverable db agent) (find project_key k db.projects))
unfolding list_projects
found_row agent db k h =
    let p = discoverable db agent in
    rw
      (
        find-map project_key (shown db agent) (shown_key db agent) k
            (order_by project_before (select p db.projects)),
        find-order_by project_key project_before k (select p db.projects)
            (IsKeyed-select project_key p db.projects h),
        find-select project_key p k db.projects h,
      )
      refl

-- `List` leaves out exactly the closed projects that are not listed and in which the agent has no
-- row. Of the others it shows whole an open one, one that the agent owns and one of which it is an
-- active member, and of any other only that it exists: without its objective, owner, nominee, date
-- and metadata. The ids of the projects are unique.
pub find-list_projects :
    (agent : String) (db : Db) (k : String)
    → IsKeyed project_key db.projects
    → Discloses agent db
        (find project_key k db.projects)
        (find project_key k (list_projects agent db))
find-list_projects agent db k h =
    subst (Discloses agent db (find project_key k db.projects)) (sym (found_row agent db k h))
      (project_row agent db (find project_key k db.projects))
