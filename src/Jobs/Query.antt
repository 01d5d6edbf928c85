-- ===== src/Jobs/Query.antt =====
-- The reading methods of `JobV1Store` (openpine/jobs/transactional_store.py): the event log behind
-- a cursor, and pages of jobs.
use openpine.Base.Text.{text_lt}
use openpine.Jobs.Tx.{pure, ◌>>=◌, Tx}
use openpine.Base.Lists.{last?, keep, length, take}
use openpine.Jobs.Recover.{decode}
use openpine.Jobs.Store.{find_event}
use mathlib.Core.Option
use openpine.Base.{
  negsuc, false, map, min, ◌==◌, eqb, ◌&&◌, [], max, if◌then◌else◌, ◌||◌, truthy, true, pos, some,
  none, ◌∷◌, ltb, ℤ, Option, String, Bool, List, ℕ,
}
use openpine.Jobs.Model.{same_state, Event, JobState, Db, EventRow, Job}

-- The log is held in the order of `seq`, so this is SELECT payload … WHERE seq > ? ORDER BY seq.
unfoldable pub events_after : ℕ → List EventRow → List Event
events_after seq [] = []
events_after seq (e ∷ es) =
    let rest = events_after seq es in if ltb seq e.seq then e.payload ∷ rest else rest

-- `events`
unfoldable pub events : String → Db → List Event
unfolding events_after find_event
events after db =
    if truthy after
    then elim (find_event after db.events) [ none ↦ [] | some a ↦ events_after a.seq db.events ]
    else map (λ e. e.payload) db.events

unfoldable pub needs_resync : String → Db → Bool
unfolding find_event
needs_resync after db =
    truthy after && elim (find_event after db.events) [ none ↦ true | some _ ↦ false ]

-- the key (-created_at_utc_ms, job_id), compared as Python compares tuples
abbrev pub sorts_before : Job → Job → Bool
sorts_before a b =
    let x = a.envelope.created_at_utc_ms in
    let y = b.envelope.created_at_utc_ms in ltb y x || (eqb x y && text_lt a.job_id b.job_id)

-- `jobs.sort(key=…)`, by insertion: it keeps jobs of one key in their order.
unfoldable pub insert_job_sorted : Job → List Job → List Job
insert_job_sorted j [] = j ∷ []
insert_job_sorted j (k ∷ ks) = if sorts_before k j then k ∷ insert_job_sorted j ks else j ∷ k ∷ ks

unfoldable pub sort_jobs : List Job → List Job
unfolding insert_job_sorted
sort_jobs [] = []
sort_jobs (j ∷ js) = insert_job_sorted j (sort_jobs js)

-- `for index, item in enumerate(jobs): if item["job_id"] == cursor: …`; none where no item matches
unfoldable pub behind : String → List Job → Option (List Job)
behind cursor [] = none
behind cursor (j ∷ js) = if j.job_id == cursor then some js else behind cursor js

unfoldable pub after_cursor : Option String → List Job → List Job
unfolding behind
after_cursor none js = js
after_cursor (some cursor) js =
    if truthy cursor then elim (behind cursor js) [ none ↦ js | some rest ↦ rest ] else js

-- max(1, min(limit, 1_000))
abbrev pub bounded_limit : ℤ → ℕ
bounded_limit (pos n) = max 1 (min n 1000)
bounded_limit (negsuc n) = 1

pub record Page : Type 0 where
  pub items : List Job
  pub cursor : Option String

-- the page that starts at the head of `js`
unfoldable pub page_of : ℕ → List Job → Page
page_of limit js =
    let page = take limit js in
    record {
      items = page;
      cursor =
          if ltb (length page) (length js) then Option.map (λ j. j.job_id) (last? page) else none;
    }

abbrev pub kind_matches : Option String → Job → Bool
kind_matches none j = true
kind_matches (some kind) j = if truthy kind then j.kind == kind else true

abbrev pub state_matches : Option JobState → Job → Bool
state_matches none j = true
state_matches (some s) j = same_state j.state s

-- `list_jobs`; a payload that is not JSON raises
unfoldable pub list_jobs : Option String → Option JobState → Option String → ℤ → Tx Page
unfolding decode sort_jobs after_cursor page_of
list_jobs kind state cursor limit db =
    (do
      rows ← decode db.jobs
      let jobs = keep (state_matches state) (keep (kind_matches kind) (sort_jobs rows))
      pure (page_of (bounded_limit limit) (after_cursor cursor jobs)))
      db
