-- ===== src/Generator/Live.antt =====
-- The jobs of a generator whose token is not cancelled, over any history of the generator.
use op_rbuilder.Base.{
  ℕ, suc, ◌≤◌, ◌<◌, ◌≡◌, refl, sym, ◌∙◌, Bool, true, not, List, [], ◌∷◌, if◌then◌else◌, ◌==◌, arith,
  ◌⊎◌, inl, inr, contains, leb, All, All-mono, Bool-cases, Result-cases, err, ap,
}
use op_rbuilder.Generator.{
  GeneratorError, Token, Attributes, Client, PayloadJob, Service, with_builder, cancel, new_token,
  parent_header, spawn_job, new_payload_job, resolve_kind, poll, set_cell, set,
}

module _ {Payload : Type 0} where
  -- The number of jobs with a property
  abbrev pub count : (PayloadJob Payload → Bool) → List (PayloadJob Payload) → ℕ
  count p [] = 0
  count p (j ∷ js) = let rest = count p js in if p j then suc rest else rest

  -- The jobs whose token is not cancelled
  abbrev pub live : Service Payload → ℕ
  live s = count (λ j. not (contains s.cancelled j.cancel)) s.jobs

  -- What happens to a service: a request of a payload, and what is done with a job.
  pub data Step : Service Payload → Service Payload → Type 0 where
    requested :
        {s : Service Payload} (client : Client) (now : ℕ) (attributes : Attributes)
        → Step s (new_payload_job client now attributes s).1
    resolved : {s : Service Payload} (job : PayloadJob Payload) → Step s (resolve_kind job s).1
    polled : {s : Service Payload} (now : ℕ) (job : PayloadJob Payload) → Step s (poll now job s).1
    built : {s : Service Payload} (t : Token) (value : Payload) → Step s (set t value s)

  pub data Steps (s : Service Payload) : Service Payload → Type 0 where
    start : Steps s s
    then_step : {s' s'' : Service Payload} → Steps s s' → Step s' s'' → Steps s s''

  -- Every job but one has a cancelled token; that one has the last token.
  record OneLive (s : Service Payload) : Type 0 where
    only_one : s.ensure_only_one_payload ≡ true
    last_known : s.last_payload < s.next_token
    known : All (λ (j : PayloadJob Payload). j.cancel < s.next_token) s.jobs
    others :
        All
          (λ (j : PayloadJob Payload).
            (j.cancel ≡ s.last_payload) ⊎ (contains s.cancelled j.cancel ≡ true))
          s.jobs
    one : count (λ j. j.cancel == s.last_payload) s.jobs ≤ 1

  unknown :
      (t : Token) (js : List (PayloadJob Payload))
      → All (λ (j : PayloadJob Payload). j.cancel < t) js
      → count (λ j. j.cancel == t) js ≡ 0
  unknown t [] h = refl
  unknown t (j ∷ js) h = ground (arith, unknown t js h.1, h.0)

  live-le :
      (last : Token) (cancelled : List Token) (js : List (PayloadJob Payload))
      → All
          (λ (j : PayloadJob Payload). (j.cancel ≡ last) ⊎ (contains cancelled j.cancel ≡ true))
          js
      → count (λ j. not (contains cancelled j.cancel)) js ≤ count (λ j. j.cancel == last) js
  live-le last cancelled [] h = omega arith
  live-le last cancelled (j ∷ js) h = ground (arith, live-le last cancelled js h.1, h.0)

  -- One more token is cancelled.
  cancel-OneLive : (t : Token) (s : Service Payload) → OneLive s → OneLive (cancel t s)
  unfolding cancel
  cancel-OneLive t s h = record {
    only_one = h.only_one;
    last_known = h.last_known;
    known = h.known;
    others =
        All-mono _ _
          (λ (j : PayloadJob Payload)
              (o : (j.cancel ≡ s.last_payload) ⊎ (contains s.cancelled j.cancel ≡ true)).
            ground (arith, o))
          s.jobs h.others;
    one = h.one;
  }

  new_token-OneLive :
      (s : Service Payload)
      → OneLive s
      → OneLive (new_token s).1
        × ((new_token s).0 ≡ s.next_token)
        × ((new_token s).1.last_payload ≡ s.next_token)
        × (count (λ j. j.cancel == s.next_token) (new_token s).1.jobs ≡ 0)
        × (s.next_token < (new_token s).1.next_token)
  unfolding new_token cancel
  new_token-OneLive s h = rw h.only_one (
    record {
      only_one = refl;
      last_known = omega arith;
      known =
          All-mono _ _ (λ (j : PayloadJob Payload) (k : j.cancel < s.next_token). omega (arith, k))
            s.jobs h.known;
      others =
          All-mono _ _
            (λ (j : PayloadJob Payload)
                (o : (j.cancel ≡ s.last_payload) ⊎ (contains s.cancelled j.cancel ≡ true)).
              ground (arith, o))
            s.jobs h.others;
      one = omega (arith, unknown s.next_token s.jobs h.known);
    },
    refl,
    refl,
    unknown s.next_token s.jobs h.known,
    omega arith,
  )

  requested-OneLive :
      (client : Client) (now : ℕ) (attributes : Attributes) (s : Service Payload)
      → OneLive s
      → OneLive (new_payload_job client now attributes s).1
  unfolding new_payload_job spawn_job
  requested-OneLive client now attributes s h =
      let (fresh, token, last, none_yet, newer) = new_token-OneLive s h in
      elim (Result-cases (parent_header client attributes)) [
        | inr (x, lost) ↦ rw (lost, new_payload_job) fresh
        | inl (parent, found) ↦
            rw (found, new_payload_job)
              (record {
                only_one = fresh.only_one;
                last_known = fresh.last_known;
                known = (omega (arith, token, newer), fresh.known);
                others = (inl (token ∙ sym last), fresh.others);
                one = ground (arith, token, last, none_yet);
              })
      ]

  set_cell-All :
      (P : Token → Type 0) (t : Token) (value : Payload) (js : List (PayloadJob Payload))
      → All (λ (j : PayloadJob Payload). P j.cancel) js
      → All (λ (j : PayloadJob Payload). P j.cancel) (set_cell t value js)
  set_cell-All P t value [] h = tt
  set_cell-All P t value (j ∷ js) h = elim (Bool-cases (j.cancel == t)) [
    | inl same ↦ rw same (h.0, set_cell-All P t value js h.1)
    | inr other ↦ rw other (h.0, set_cell-All P t value js h.1)
  ]

  set_cell-count :
      (last t : Token) (value : Payload) (js : List (PayloadJob Payload))
      → count (λ j. j.cancel == last) (set_cell t value js) ≡ count (λ j. j.cancel == last) js
  set_cell-count last t value [] = refl
  set_cell-count last t value (j ∷ js) = ground (arith, set_cell-count last t value js)

  set-OneLive :
      (t : Token) (value : Payload) (s : Service Payload) → OneLive s → OneLive (set t value s)
  unfolding set
  set-OneLive t value s h = record {
    only_one = h.only_one;
    last_known = h.last_known;
    known = set_cell-All (λ c. c < s.next_token) t value s.jobs h.known;
    others =
        set_cell-All (λ c. (c ≡ s.last_payload) ⊎ (contains s.cancelled c ≡ true)) t value s.jobs
          h.others;
    one = omega (arith, h.one, set_cell-count s.last_payload t value s.jobs);
  }

  polled-OneLive :
      (now : ℕ) (job : PayloadJob Payload) (s : Service Payload)
      → OneLive s
      → OneLive (poll now job s).1
  unfolding poll
  polled-OneLive now job s h = elim (Bool-cases (leb job.deadline now)) [
    | inl late ↦ rw late (cancel-OneLive job.cancel s h)
    | inr early ↦ rw early h
  ]

  Step-OneLive : {s s' : Service Payload} → Step s s' → OneLive s → OneLive s'
  unfolding resolve_kind
  Step-OneLive (requested client now attributes) h = requested-OneLive client now attributes _ h
  Step-OneLive (resolved job) h = cancel-OneLive job.cancel _ h
  Step-OneLive (polled now job) h = polled-OneLive now job _ h
  Step-OneLive (built t value) h = set-OneLive t value _ h

  Steps-OneLive : {s s' : Service Payload} → Steps s s' → OneLive s → OneLive s'
  Steps-OneLive start h = h
  Steps-OneLive (then_step before last) h = Step-OneLive last (Steps-OneLive before h)

  with_builder-OneLive : (deadline : ℕ) → OneLive (with_builder true deadline)
  unfolding with_builder
  with_builder-OneLive deadline = record {
    only_one = refl;
    last_known = omega arith;
    known = tt;
    others = tt;
    one = omega arith;
  }

  -- For a generator that is to build one payload at a time, after any requests, resolutions and
  -- polls of jobs and results of builds, at most one of its jobs has a token that is not
  -- cancelled.
  pub at_most_one_live :
      (deadline : ℕ) (s : Service Payload) → Steps (with_builder true deadline) s → live s ≤ 1
  at_most_one_live deadline s steps =
      let h = Steps-OneLive steps (with_builder-OneLive deadline) in
      omega (arith, live-le s.last_payload s.cancelled s.jobs h.others, h.one)

  -- For a generator that is to build one payload at a time, after any such history, a request that
  -- new_payload_job refuses leaves no job with a token that is not cancelled.
  pub refused-none_live :
      (deadline : ℕ) (s : Service Payload) (client : Client) (now : ℕ) (attributes : Attributes)
      (e : GeneratorError)
      → Steps (with_builder true deadline) s
      → (new_payload_job client now attributes s).0 ≡ err e
      → live (new_payload_job client now attributes s).1 ≡ 0
  unfolding new_payload_job
  refused-none_live deadline s client now attributes e steps refused =
      let h = Steps-OneLive steps (with_builder-OneLive deadline) in
      let (fresh, token, last, none_yet, newer) = new_token-OneLive s h in
      elim (Result-cases (parent_header client attributes)) [
        | inl (parent, found) ↦ absurd (ground (arith, found, refused))
        | inr (x, lost) ↦
            let s' = (new_token s).1 in
            let bound = live-le s'.last_payload s'.cancelled s'.jobs fresh.others in
            let none_last : count (λ j. j.cancel == s'.last_payload) s'.jobs ≡ 0 =
              ap (λ t. count (λ (j : PayloadJob Payload). j.cancel == t) s'.jobs) last ∙ none_yet in
            rw (lost, new_payload_job) (omega (arith, bound, none_last))
      ]
