-- ===== src/Ponte/Validacao.antt =====
-- cmd/ponte/main.go, validar and lerFaixa: exactly which targets and ranges are accepted.
use greenlabs_server.Comum.{
  ℕ, ◌≡◌, ◌≢◌, ◌↔◌, refl, Bool, true, false, not, ◌&&◌, Option, none, some, List, [], ◌∷◌, All,
  arith, if◌then◌else◌, if_cases, Bool-cases, inl, inr,
}
use greenlabs_server.Comum.Texto.{Texto}
use greenlabs_server.Comum.Inteiro.{ℤ, leb_int, atoi}
use greenlabs_server.Ponte.{
  Ponte, Resultado, aceito, recusado, sem_endereco, interno, sem_porta, limpar_alvo, conferir_porta,
  conferir_destino, todos_publicos, validar,
}
use greenlabs_server.Ponte.Endereco.{eh_publico, split_host_port, join_host_port}

-- `n` lies between the bounds.
abbrev pub Dentro : ℤ → ℤ → ℤ → Type 0
Dentro a b n = (leb_int a n ≡ true) × (leb_int n b ≡ true)

-- The port is a number in the range, the name has addresses, all of them public, and the target is
-- the two.
abbrev pub Acessivel : (Texto → Option (List (List ℕ))) → Ponte → Texto → Texto → Texto → Type 0
Acessivel resolver p host porta destino =
    (n : ℤ) × (ips : List (List ℕ)) × (atoi porta ≡ some n)
    × Dentro p.porta_minima p.porta_maxima n
    × (resolver host ≡ some ips)
    × (ips ≢ [])
    × All (λ ip. eh_publico ip ≡ true) ips
    × (destino ≡ join_host_port host porta)

-- The request names such a host and port.
abbrev pub Alcancavel : (Texto → Option (List (List ℕ))) → Ponte → Texto → Texto → Type 0
Alcancavel resolver p alvo destino =
    (host : Texto) × (porta : Texto) × (split_host_port (limpar_alvo alvo) ≡ some (host, porta))
    × Acessivel resolver p host porta destino

todos_publicos_sound :
    (ips : List (List ℕ)) → todos_publicos ips ≡ true → All (λ ip. eh_publico ip ≡ true) ips
unfolding todos_publicos
todos_publicos_sound [] e = tt
todos_publicos_sound (ip ∷ ips) e = (ground arith, todos_publicos_sound ips (ground arith))

todos_publicos_complete :
    (ips : List (List ℕ)) → All (λ ip. eh_publico ip ≡ true) ips → todos_publicos ips ≡ true
unfolding todos_publicos
todos_publicos_complete [] _ = refl
todos_publicos_complete (ip ∷ ips) (a, b) = rw (a, todos_publicos_complete ips b)

conferir_porta_sound :
    (p : Ponte) (porta : Texto)
    → conferir_porta p porta ≡ true
    → (n : ℤ) × (atoi porta ≡ some n) × Dentro p.porta_minima p.porta_maxima n
unfolding conferir_porta
conferir_porta_sound p porta = caso (atoi porta)
  where
    caso :
        (o : Option ℤ)
        → ◌≡◌ {A = Bool}
            (elim o [
              | none ↦ false
              | some n ↦ leb_int p.porta_minima n && leb_int n p.porta_maxima
            ])
            true
        → (n : ℤ) × (o ≡ some n) × Dentro p.porta_minima p.porta_maxima n
    caso none e = cc
    caso (some n) e = (n, refl, (ground arith, ground arith))

conferir_porta_complete :
    (p : Ponte) (porta : Texto) (n : ℤ)
    → atoi porta ≡ some n
    → Dentro p.porta_minima p.porta_maxima n
    → conferir_porta p porta ≡ true
unfolding conferir_porta
conferir_porta_complete p porta n e (a, b) = rw (conferir_porta, e) (ground arith)

conferir_destino_sound :
    (resolver : Texto → Option (List (List ℕ))) (p : Ponte) (host porta destino : Texto)
    → conferir_destino resolver p host porta ≡ aceito destino
    → Acessivel resolver p host porta destino
unfolding conferir_destino
conferir_destino_sound resolver p host porta destino =
    if_cases (λ (r : Resultado Texto). r ≡ aceito destino → Acessivel resolver p host porta destino)
      (not (conferir_porta p porta)) (λ _ e. cc)
      (λ q e.
        let (n, a, d) = conferir_porta_sound p porta (ground arith) in
        let (ips, b, c, t, f) = caso (resolver host) e in (n, ips, a, d, b, c, t, f))
  where
    caso :
        (o : Option (List (List ℕ)))
        → elim o [
          | none ↦ recusado sem_endereco
          | some [] ↦ recusado sem_endereco
          | some (ip ∷ ips) ↦
              if todos_publicos (ip ∷ ips)
              then aceito (join_host_port host porta)
              else recusado interno
        ]
          ≡ aceito destino
        → (ips : List (List ℕ)) × (o ≡ some ips)
          × (ips ≢ [])
          × All (λ ip. eh_publico ip ≡ true) ips
          × (destino ≡ join_host_port host porta)
    caso none e = cc
    caso (some []) e = cc
    caso (some (ip ∷ ips)) e = elim (Bool-cases (todos_publicos (ip ∷ ips))) [
      | inl t ↦ (ip ∷ ips, refl, λ z. cc, todos_publicos_sound (ip ∷ ips) t, ground arith)
      | inr t ↦ ground arith
    ]

conferir_destino_complete :
    (resolver : Texto → Option (List (List ℕ))) (p : Ponte) (host porta : Texto) (n : ℤ)
    (ips : List (List ℕ))
    → atoi porta ≡ some n
    → Dentro p.porta_minima p.porta_maxima n
    → resolver host ≡ some ips
    → ips ≢ []
    → All (λ ip. eh_publico ip ≡ true) ips
    → conferir_destino resolver p host porta ≡ aceito (join_host_port host porta)
unfolding conferir_destino
conferir_destino_complete resolver p host porta n [] a d b c t = absurd (c refl)
conferir_destino_complete resolver p host porta n (ip ∷ ips) a d b c t =
    rw (conferir_porta_complete p porta n a d, b, todos_publicos_complete (ip ∷ ips) t) refl

-- validar accepts a target exactly if what the request names, less blanks, a scheme and a slash, is
-- a host and a port, the port is a number in the proxy's range, and the host has at least one
-- address and only public ones; what it answers is that host and that port.
pub validar-Alcancavel :
    (resolver : Texto → Option (List (List ℕ))) (p : Ponte) (alvo destino : Texto)
    → (validar resolver p alvo ≡ aceito destino) ↔ Alcancavel resolver p alvo destino
unfolding validar
validar-Alcancavel resolver p alvo destino = (
  caso (split_host_port (limpar_alvo alvo)),
  λ (host, porta, s, (n, ips, a, d, b, c, t, f)).
      rw (validar, s, f) (conferir_destino_complete resolver p host porta n ips a d b c t),
)
  where
    caso :
        (o : Option (Texto × Texto))
        → elim o [
          | none ↦ recusado sem_porta
          | some (host, porta) ↦ conferir_destino resolver p host porta
        ]
          ≡ aceito destino
        → (host : Texto) × (porta : Texto) × (o ≡ some (host, porta))
          × Acessivel resolver p host porta destino
    caso none e = cc
    caso (some (host, porta)) e =
        (host, porta, refl, conferir_destino_sound resolver p host porta destino e)
