-- ===== src/Cli/Hosts/Prefixes.antt =====
-- Which host `disco hosts show` shows for the start of a machine id.
use disco.Base.{
  Str, true, List, [], ◌∷◌, some, ◌≡◌, refl, sym, ap, subst, In, here, there, In-select,
  In-of_In-select, arith,
}
use disco.Timesync.Floats.{Floats}
use disco.Protocol.{HostHealth, Response}
use disco.Cli.Hosts.{Shown, detail, by_prefix, choose, show_by_prefix}
use disco.Cli.Ping.{has_prefix, handle_response}

abbrev host_of : Shown → List HostHealth
host_of (detail h) = h ∷ []
host_of _ = []

choose_detail :
    (hosts : List HostHealth) (h : HostHealth) → choose hosts ≡ detail h → hosts ≡ h ∷ []
unfolding choose
choose_detail [] h e = absurd (ground arith)
choose_detail (g ∷ []) h e = ap host_of e
choose_detail (g ∷ next ∷ hosts) h e = absurd (ground arith)

one_of : {g h : HostHealth} → In g (h ∷ []) → g ≡ h
one_of (here e) = e
one_of (there i) = elim i [ ]

-- The host that is shown is the only one of the list whose machine id starts with the text.
pub show_by_prefix_unique :
    (fl : Floats) (r : Response fl) (name : Str) (h : HostHealth)
    → handle_response fl (some r) ≡ some r
    → show_by_prefix fl (some r) name ≡ detail h
    → In h r.hosts
      × (has_prefix name h.machine_id ≡ true)
      × ((g : HostHealth) → In g r.hosts → has_prefix name g.machine_id ≡ true → g ≡ h)
unfolding by_prefix show_by_prefix
show_by_prefix_unique fl r name h answered shown =
    let starts = λ (g : HostHealth). has_prefix name g.machine_id in
    let chosen : choose (by_prefix name r.hosts) ≡ detail h =
      rw (answered, show_by_prefix) at shown in
    let only : by_prefix name r.hosts ≡ h ∷ [] = choose_detail (by_prefix name r.hosts) h chosen in
    let (place, starting) = In-of_In-select starts r.hosts (subst (In h) (sym only) (here refl)) in
    (place, starting, λ g i s. one_of (subst (In g) only (In-select starts r.hosts i s)))
