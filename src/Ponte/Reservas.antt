-- ===== src/Ponte/Reservas.antt =====
-- cmd/ponte/main.go, reservar and devolver: the counters against the list of the open connections.
use greenlabs_server.Comum.{
  ℕ, zero, suc, ◌-◌, ◌≤◌, ◌≡◌, refl, sym, ap, ◌∙◌, Bool, true, false, ◌||◌, Option, none, some,
  List, [], ◌∷◌, leb, length, if◌then◌else◌, if_cases, arith,
}
use greenlabs_server.Comum.Texto.{Texto, eq_texto, eq_texto_iff}
use greenlabs_server.Comum.Inteiro.{ℤ, pos, leb_int, mais_um, menos_um}
use greenlabs_server.Comum.Mapa.{lookup, insert, erase, lookup-insert, lookup-erase}
use greenlabs_server.Ponte.{Ponte, Limites, nova_ponte, de_ip, reservar, devolver}

-- How many of the open connections come from `ip`, and the list without one of them.
abbrev pub conta : Texto → List Texto → ℕ
conta ip [] = 0
conta ip (x ∷ xs) = if eq_texto x ip then suc (conta ip xs) else conta ip xs

abbrev pub tirar : Texto → List Texto → List Texto
tirar ip [] = []
tirar ip (x ∷ xs) = if eq_texto x ip then xs else x ∷ tirar ip xs

-- The entry of an origin with `n` connections: there is none for 0.
abbrev pub contado : ℕ → Option ℤ
contado zero = none
contado (suc n) = some (pos (suc n))

-- The counters say what is open.
abbrev pub Representa : Ponte → List Texto → Type 0
Representa p xs =
    (p.total ≡ pos (length xs)) × ((ip : Texto) → lookup ip p.por_ip ≡ contado (conta ip xs))

-- A connection comes, or one from that origin that has its place ends.
pub data Evento : Type 0 where
  chega : Texto → Evento
  parte : Texto → Evento

unfoldable pub passo : Limites → Evento → Ponte × List Texto → Ponte × List Texto
passo lim (chega ip) (p, xs) =
    let (p', cabe) = reservar lim ip p in (p', if cabe then ip ∷ xs else xs)
passo lim (parte ip) (p, xs) = if leb 1 (conta ip xs) then (devolver ip p, tirar ip xs) else (p, xs)

unfoldable pub executar : Limites → List Evento → Ponte × List Texto → Ponte × List Texto
executar lim [] s = s
executar lim (e ∷ es) s = executar lim es (passo lim e s)

de_ip-Representa :
    (ip : Texto) (p : Ponte) (xs : List Texto) → Representa p xs → de_ip ip p ≡ pos (conta ip xs)
unfolding de_ip
de_ip-Representa ip p xs r = rw (de_ip, r.1 ip) (caso (conta ip xs))
  where
    caso : (n : ℕ) → ◌≡◌ {A = ℤ} (elim (contado n) [ none ↦ pos 0 | some m ↦ m ]) (pos n)
    caso zero = refl
    caso (suc n) = refl

conta-tirar :
    (ip x : Texto) (xs : List Texto)
    → conta x (tirar ip xs) ≡ (if eq_texto ip x then conta x xs - 1 else conta x xs)
conta-tirar ip x [] = ground arith
conta-tirar ip x (y ∷ ys) =
    ground (arith, conta-tirar ip x ys, eq_texto_iff y ip, eq_texto_iff y x, eq_texto_iff ip x)

length-tirar :
    (ip : Texto) (xs : List Texto)
    → leb 1 (conta ip xs) ≡ true
    → suc (length (tirar ip xs)) ≡ length xs
length-tirar ip [] e = ground arith
length-tirar ip (y ∷ ys) e = ground (arith, length-tirar ip ys)

pub reservado-Representa :
    (ip : Texto) (p : Ponte) (xs : List Texto)
    → Representa p xs
    → Representa
        (record p { por_ip = insert ip (mais_um (de_ip ip p)) p.por_ip; total = mais_um p.total })
        (ip ∷ xs)
reservado-Representa ip p xs r =
    let n = de_ip-Representa ip p xs r in
    (
      ap mais_um r.0,
      λ x. rw n (
          ground (
            arith,
            lookup-insert ip x (pos (suc (conta ip xs))) p.por_ip,
            r.1 x,
            eq_texto_iff ip x,
          )),
    )

pub devolver-Representa :
    (ip : Texto) (p : Ponte) (xs : List Texto)
    → Representa p xs
    → leb 1 (conta ip xs) ≡ true
    → Representa (devolver ip p) (tirar ip xs)
unfolding devolver
devolver-Representa ip p xs r e =
    let n = de_ip-Representa ip p xs r in
    (
      ap menos_um r.0 ∙ ap menos_um (ap pos (sym (length-tirar ip xs e))),
      λ x. rw n (entrada x (conta ip xs) refl),
    )
  where
    entrada :
        (x : Texto) (k : ℕ)
        → conta ip xs ≡ k
        → lookup x (
            if leb_int (menos_um (pos k)) (pos 0)
            then erase ip p.por_ip
            else insert ip (menos_um (pos k)) p.por_ip)
          ≡ contado (conta x (tirar ip xs))
    entrada x zero q = ground arith
    entrada x (suc zero) q =
        ground (arith, lookup-erase ip x p.por_ip, r.1 x, conta-tirar ip x xs, eq_texto_iff ip x)
    entrada x (suc (suc k)) q = ground (
      arith,
      lookup-insert ip x (pos (suc k)) p.por_ip,
      r.1 x,
      conta-tirar ip x xs,
      eq_texto_iff ip x,
    )

-- The counters say what is open, and neither limit is exceeded.
abbrev pub IsReserva : ℕ → ℕ → Ponte × List Texto → Type 0
IsReserva t k (p, xs) = Representa p xs × (length xs ≤ t) × ((ip : Texto) → conta ip xs ≤ k)

reservar-IsReserva :
    (t k : ℕ) (ip : Texto) (p : Ponte) (xs : List Texto)
    → let lim : Limites = record { por_limite = pos k; total_maximo = pos t } in
      IsReserva t k (p, xs) → IsReserva t k (passo lim (chega ip) (p, xs))
unfolding passo reservar de_ip
reservar-IsReserva t k ip p xs (r, a, b) =
    if_cases (λ (s : Ponte × Bool). IsReserva t k (s.0, if s.1 then ip ∷ xs else xs))
      (leb_int (pos t) p.total || leb_int (pos k) (de_ip ip p)) (λ _. (r, a, b))
      (λ e.
        let f : (leb t (length xs) || leb k (conta ip xs)) ≡ false =
          rw (r.0, de_ip-Representa ip p xs r) at e in
        (reservado-Representa ip p xs r, ground arith, λ x. ground (arith, b x, eq_texto_iff ip x)))

devolver-IsReserva :
    (t k : ℕ) (ip : Texto) (p : Ponte) (xs : List Texto)
    → let lim : Limites = record { por_limite = pos k; total_maximo = pos t } in
      IsReserva t k (p, xs) → IsReserva t k (passo lim (parte ip) (p, xs))
unfolding passo
devolver-IsReserva t k ip p xs (r, a, b) =
    if_cases (IsReserva t k) (leb 1 (conta ip xs))
      (λ e. (
        devolver-Representa ip p xs r e,
        omega (arith, length-tirar ip xs e, a),
        λ x. ground (arith, b x, conta-tirar ip x xs),
      ))
      (λ _. (r, a, b))

executa-IsReserva :
    (t k : ℕ) (es : List Evento) (s : Ponte × List Texto)
    → let lim : Limites = record { por_limite = pos k; total_maximo = pos t } in
      IsReserva t k s → IsReserva t k (executar lim es s)
unfolding executar
executa-IsReserva t k [] s v = v
executa-IsReserva t k (chega ip ∷ es) (p, xs) v =
    executa-IsReserva t k es (passo _ (chega ip) (p, xs)) (reservar-IsReserva t k ip p xs v)
executa-IsReserva t k (parte ip ∷ es) (p, xs) v =
    executa-IsReserva t k es (passo _ (parte ip) (p, xs)) (devolver-IsReserva t k ip p xs v)

-- reservar and devolver, from an empty proxy with limits that are not negative, after any sequence
-- of connections that come and go: `total` is the number of the connections that were let in and
-- are still open, an origin's entry is how many of them are its own (no entry for none), there are
-- at most as many as the limit, and at most as many from one origin as its limit.
pub executar-IsReserva :
    (t k : ℕ) (minima maxima : ℤ) (es : List Evento)
    → let lim : Limites = record { por_limite = pos k; total_maximo = pos t } in
      IsReserva t k (executar lim es (nova_ponte minima maxima, []))
unfolding lookup
executar-IsReserva t k minima maxima es =
    executa-IsReserva t k es (nova_ponte minima maxima, [])
      (unfold nova_ponte in ((refl, λ ip. refl), omega arith, λ ip. omega arith))
