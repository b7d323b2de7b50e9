-- ===== src/Configs/Root/Types.antt =====
-- The task configurations of a type, among all.
use mathlib.Core.List.{append-nil}
use monitorbeat.Base.{
  ◌≡◌, refl, sym, ◌∙◌, Bool, true, false, not, ◌&&◌, List, [], ◌∷◌, ◌++◌, filter, All, any, arith,
  if◌then◌else◌, map, Bool-cases, inl, inr,
}
use monitorbeat.Base.Text.{Text, codes, text_eq, text_eq→≡}
use monitorbeat.Configs.Root.{
  TaskConfig, basereport, ping, tcp, udp, http, keyword, script, exceptionbeat, processbeat,
  socket_snapshot, self_stats, gather_up_beat, dmesg, metricbeat, Config, get_type,
  get_task_config_list_by_type, all_task_configs,
}

-- The cases of the switch, as a table.
abbrev Table : Type 0
Table = List (Text × List TaskConfig)

select : Text → Table → List TaskConfig
select typ [] = []
select typ ((n, l) ∷ t) = if text_eq typ n then l else select typ t

flatten : Table → List TaskConfig
flatten [] = []
flatten ((n, l) ∷ t) = l ++ flatten t

abbrev names : Table → List Text
names [] = []
names ((n, l) ∷ t) = n ∷ names t

abbrev distinct : List Text → Bool
distinct [] = true
distinct (n ∷ l) = not (any (text_eq n) l) && distinct l

IsTyped : Table → Type 0
IsTyped [] = Unit
IsTyped ((n, l) ∷ t) = All (λ c. get_type c ≡ n) l × IsTyped t

filter-append :
    (p : TaskConfig → Bool) (l m : List TaskConfig) → filter p (l ++ m) ≡ filter p l ++ filter p m
filter-append p [] m = refl
filter-append p (c ∷ l) m = ground (arith, filter-append p l m)

filter-typed :
    (typ n : Text) (l : List TaskConfig)
    → All (λ c. get_type c ≡ n) l
    → filter (λ c. text_eq typ (get_type c)) l ≡ (if text_eq typ n then l else [])
filter-typed typ n [] h = ground arith
filter-typed typ n (c ∷ l) (e, h) = ground (arith, e, filter-typed typ n l h)

select-absent : (n : Text) (t : Table) → any (text_eq n) (names t) ≡ false → select n t ≡ []
unfolding select
select-absent n [] h = refl
select-absent n ((m, l) ∷ t) h = ground (arith, select-absent n t)

filter-flatten :
    (typ : Text) (t : Table)
    → IsTyped t
    → distinct (names t) ≡ true
    → filter (λ c. text_eq typ (get_type c)) (flatten t) ≡ select typ t
unfolding flatten select IsTyped
filter-flatten typ [] h d = refl
filter-flatten typ ((n, l) ∷ t) (h, k) d =
    let rest = filter-flatten typ t k in
    filter-append (λ c. text_eq typ (get_type c)) l (flatten t)
    ∙ (elim (Bool-cases (text_eq typ n)) [
      | inl b ↦ ground (
        arith,
        b,
        rest,
        filter-typed typ n l h,
        append-nil l,
        select-absent typ t,
        text_eq→≡ typ n b,
      )
      | inr b ↦ ground (arith, b, rest, filter-typed typ n l h)
    ])

typed :
    {A : Type 0} (f : A → TaskConfig) (n : Text) (h : (a : A) → get_type (f a) ≡ n) (l : List A)
    → All (λ c. get_type c ≡ n) (map f l)
typed f n h [] = tt
typed f n h (a ∷ l) = (h a, typed f n h l)

abbrev table : Config → Table
table c =
    (codes "basereport", map basereport c.basereports)
    ∷ (codes "ping", map ping c.pings)
    ∷ (codes "tcp", map tcp c.tcps)
    ∷ (codes "udp", map udp c.udps)
    ∷ (codes "http", map http c.https)
    ∷ (codes "keyword", map keyword c.keywords)
    ∷ (codes "script", map script c.scripts)
    ∷ (codes "exceptionbeat", map exceptionbeat c.exceptionbeats)
    ∷ (codes "processbeat", map processbeat c.processbeats)
    ∷ (codes "socketsnapshot", map socket_snapshot c.socket_snapshots)
    ∷ (codes "selfstats", map self_stats c.self_stats_list)
    ∷ (codes "gather_up_beat", map gather_up_beat c.gather_up_beats)
    ∷ (codes "dmesg", map dmesg c.dmesgs)
    ∷ (codes "metricbeat", map metricbeat c.metricbeats)
    ∷ []

table-IsTyped : (c : Config) → IsTyped (table c)
unfolding IsTyped get_type
table-IsTyped c =
    ((
      typed basereport (codes "basereport") (λ a. refl) c.basereports,
      (
        typed ping (codes "ping") (λ a. refl) c.pings,
        (
          typed tcp (codes "tcp") (λ a. refl) c.tcps,
          (
            typed udp (codes "udp") (λ a. refl) c.udps,
            (
              typed http (codes "http") (λ a. refl) c.https,
              (
                typed keyword (codes "keyword") (λ a. refl) c.keywords,
                (
                  typed script (codes "script") (λ a. refl) c.scripts,
                  (
                    typed exceptionbeat (codes "exceptionbeat") (λ a. refl) c.exceptionbeats,
                    (
                      typed processbeat (codes "processbeat") (λ a. refl) c.processbeats,
                      (
                        typed socket_snapshot (codes "socketsnapshot") (λ a. refl)
                            c.socket_snapshots,
                        (
                          typed self_stats (codes "selfstats") (λ a. refl) c.self_stats_list,
                          (
                            typed gather_up_beat (codes "gather_up_beat") (λ a. refl)
                                c.gather_up_beats,
                            (
                              typed dmesg (codes "dmesg") (λ a. refl) c.dmesgs,
                              (typed metricbeat (codes "metricbeat") (λ a. refl) c.metricbeats, tt),
                            ),
                          ),
                        ),
                      ),
                    ),
                  ),
                ),
              ),
            ),
          ),
        ),
      ),
    ))

-- The configurations of a type, in their order, are those among all configurations that say they are
-- of that type; so there is none for a type that the program does not know.
pub get_task_config_list_by_type_lem :
    (c : Config) (typ : Text)
    → get_task_config_list_by_type c typ
      ≡ filter (λ t. text_eq typ (get_type t)) (all_task_configs c)
unfolding get_task_config_list_by_type all_task_configs select flatten text_eq
get_task_config_list_by_type_lem c typ =
    sym (filter-flatten typ (table c) (table-IsTyped c) refl)
    ∙ simp (append-nil (map metricbeat c.metricbeats))
