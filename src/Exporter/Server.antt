-- ===== src/Exporter/Server.antt =====
-- The server of main.go: the requests for scrapes and for reloads, each in a goroutine of its own, and
-- the goroutine that reloads the configuration. `SafeConfig` is guarded by a lock that any number of
-- readers or one writer hold. A step is one action of one goroutine up to its next use of a channel,
-- the lock, or the configuration, and the scheduler picks any.
pub mod Snapshot
pub mod Replies
pub mod Answered
use snmp_exporter.Common.{
  ℕ, ◌≡◌, Bool, true, false, not, ◌||◌, List, [], ◌∷◌, ◌++◌, length, ◌==◌, if◌then◌else◌, Option,
  some, none, All,
}
use snmp_exporter.Common.Text.{Bytes, text, equal}
use snmp_exporter.Common.Map.{lookup}
use snmp_exporter.Exporter.Request.{
  Values, values, get, parse_modules, BadRequest, target_not_once, auth_not_once,
  snmp_context_not_once, snmp_engineid_not_once, no_module, unknown_auth, unknown_module, Job,
  Response, bad_request, serve, Config, missing, found, or_public_v2, is_repeated, respond,
}

-- What `handler` does before it locks the configuration: it refuses, or has the names of the modules.
pub data Checked : Type 0 where
  refused : BadRequest → Checked
  asks : List Bytes → Checked

abbrev pub asks_modules : Option (List Bytes) → Checked
asks_modules none = refused no_module
asks_modules (some names) = asks names

unfoldable pub check_query : Values → Checked
check_query query =
    if not (length (values query (text "target")) == 1) || equal (get query (text "target")) []
    then refused target_not_once
    else if is_repeated query (text "auth")
    then refused auth_not_once
    else if is_repeated query (text "snmp_context")
    then refused snmp_context_not_once
    else if is_repeated query (text "snmp_engineid")
    then refused snmp_engineid_not_once
    else asks_modules (parse_modules query)

-- The method of a request for a reload; `updateConfiguration` takes a POST to the reloader.
pub data Method : Type 0 where
  post other_method : Method

-- A request for a scrape, in `handler`.
pub data Reader (A M : Type 0) : Type 0 where
  arrived : Values → Reader A M
  at_lock : Values → List Bytes → Reader A M  -- at `sc.mu.RLock()`
  at_auth : Values → List Bytes → Reader A M  -- holds the lock
  at_modules : Values → A → List Bytes → List (Bytes × M) → Reader A M  -- holds the lock
  replied : Values → Response A M → Reader A M

-- A request for a reload, in `updateConfiguration`; the answer is the error, if there is one.
pub data Poster (E : Type 0) : Type 0 where
  asked : Method → Poster E
  sending : Poster E  -- at `reloadCh <- rc`
  waiting : Poster E  -- at `<-rc`
  answered : Option E → Poster E
  not_post : Poster E

-- The goroutine that reloads, for a signal or for the POST with a number.
pub data Cause : Type 0 where
  on_signal : Cause
  on_post : ℕ → Cause

pub data Reloader (A M E : Type 0) : Type 0 where
  at_select : Reloader A M E
  loading : Cause → Reloader A M E
  locking : Cause → Config A M → Reloader A M E  -- at `sc.mu.Lock()`
  replying : ℕ → Option E → Reloader A M E  -- at `rc <- err`

-- The requests have numbers; one that has not come yet has not made a step. `hup` tells whether a signal
-- is in the channel `hup`, which has room for one.
pub record Server (A M E : Type 0) : Type 0 where
  pub config : Config A M
  pub readers : ℕ → Reader A M
  pub posters : ℕ → Poster E
  pub reloader : Reloader A M E
  pub hup : Bool

abbrev pub set {ℓ} : {X : Type ℓ} → ℕ → X → (ℕ → X) → ℕ → X
set i x f j = if j == i then x else f j

module _ {A M : Type 0} where
  unfoldable pub holds : Reader A M → Bool
  holds (at_auth query names) = true
  holds (at_modules query auth names nmodules) = true
  holds _ = false

  unfoldable pub checked : Values → Checked → Reader A M
  checked query (refused b) = replied query (bad_request b)
  checked query (asks names) = at_lock query names

  -- After the lookup of the auth, and of a module; a refusal unlocks.
  unfoldable pub auth_read : Values → List Bytes → Option A → Reader A M
  auth_read query names none =
      replied query (bad_request (unknown_auth (or_public_v2 (get query (text "auth")))))
  auth_read query names (some auth) = at_modules query auth names []

  unfoldable pub module_read :
      Values → A → Bytes → List Bytes → List (Bytes × M) → Option M → Reader A M
  module_read query auth m names nmodules none = replied query (bad_request (unknown_module m))
  module_read query auth m names nmodules (some module_) =
      at_modules query auth names (nmodules ++ ((m, module_) ∷ []))

abbrev pub after_method : {E : Type 0} → Method → Poster E
after_method post = sending
after_method other_method = not_post

module _ {A M E : Type 0} where
  abbrev pub after_reload : Cause → Option E → Reloader A M E
  after_reload on_signal e = at_select
  after_reload (on_post i) e = replying i e

  -- `debug` is the flag of the command line.
  module _ (debug : Bool) where
    pub data ServerStep (s : Server A M E) : Server A M E → Type 0 where
      check :
          (i : ℕ) (query : Values)
          → s.readers i ≡ arrived query
          → ServerStep s
              (record s { readers = set i (checked query (check_query query)) s.readers })
      lock_read :
          (i : ℕ) (query : Values) (names : List Bytes)
          → s.readers i ≡ at_lock query names
          → ServerStep s (record s { readers = set i (at_auth query names) s.readers })
      read_auth :
          (i : ℕ) (query : Values) (names : List Bytes)
          → s.readers i ≡ at_auth query names
          → ServerStep s (record s {
            readers =
                set i
                  (auth_read query names
                    (lookup (or_public_v2 (get query (text "auth"))) s.config.auths))
                  s.readers;
          })
      read_module :
          (i : ℕ) (query : Values) (auth : A) (m : Bytes) (names : List Bytes)
          (nmodules : List (Bytes × M))
          → s.readers i ≡ at_modules query auth (m ∷ names) nmodules
          → ServerStep s (record s {
            readers =
                set i
                  (module_read query auth m names nmodules (lookup m s.config.modules))
                  s.readers;
          })
      unlock :
          (i : ℕ) (query : Values) (auth : A) (nmodules : List (Bytes × M))
          → s.readers i ≡ at_modules query auth [] nmodules
          → ServerStep s (record s {
            readers = set i (replied query (respond debug query auth (found nmodules))) s.readers;
          })
      switch_method :
          (i : ℕ) (method : Method)
          → s.posters i ≡ asked method
          → ServerStep s (record s { posters = set i (after_method method) s.posters })
      receive_signal : ServerStep s (record s { hup = true })
      take_signal :
          s.reloader ≡ at_select
          → s.hup ≡ true
          → ServerStep s (record s { reloader = loading on_signal; hup = false })
      take_post :
          (i : ℕ)
          → s.reloader ≡ at_select
          → s.posters i ≡ sending
          → ServerStep s
              (record s { reloader = loading (on_post i); posters = set i waiting s.posters })
      load_fails :
          (c : Cause) (e : E)
          → s.reloader ≡ loading c
          → ServerStep s (record s { reloader = after_reload c (some e) })
      load_succeeds :
          (c : Cause) (conf : Config A M)
          → s.reloader ≡ loading c
          → ServerStep s (record s { reloader = locking c conf })
      swap_config :
          (c : Cause) (conf : Config A M)
          → s.reloader ≡ locking c conf
          → ((i : ℕ) → holds (s.readers i) ≡ false)
          → ServerStep s (record s { config = conf; reloader = after_reload c none })
      reply :
          (i : ℕ) (e : Option E)
          → s.reloader ≡ replying i e
          → s.posters i ≡ waiting
          → ServerStep s (record s { reloader = at_select; posters = set i (answered e) s.posters })

    pub data ServerReach (s : Server A M E) : Server A M E → Type 0 where
      start : ServerReach s s
      step : {t u : Server A M E} → ServerReach s t → ServerStep t u → ServerReach s u

  -- The start: requests that have not been looked at, and the configuration that was loaded.
  unfoldable pub init_server : Config A M → (ℕ → Values) → (ℕ → Method) → Server A M E
  init_server config queries methods = record {
    config = config;
    readers = λ i. arrived (queries i);
    posters = λ i. asked (methods i);
    reloader = at_select;
    hup = false;
  }

-- How `main` goes on after the first load: with an exit code, or with the server. The default of
-- `concurrency`, and the registration of metrics and handlers, are left out.
pub data StartUp (A M : Type 0) : Type 0 where
  exits : ℕ → StartUp A M
  serves : Config A M → StartUp A M

abbrev pub is_empty_list : {X : Type 0} → List X → Bool
is_empty_list [] = true
is_empty_list (x ∷ l) = false

unfoldable pub start_up : {A M : Type 0} → Option (Config A M) → Bool → StartUp A M
start_up none dry_run = exits 1
start_up (some config) dry_run =
    if is_empty_list config.modules
    then exits 1
    else if is_empty_list config.auths
    then exits 1
    else if dry_run
    then exits 0
    else serves config
