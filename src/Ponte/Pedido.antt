-- ===== src/Ponte/Pedido.antt =====
-- cmd/ponte/main.go, lerFaixa and atender up to the connection: what a request does to the counters.
use greenlabs_server.Comum.{
  ℕ, ◌≡◌, ◌⊎◌, inl, inr, refl, sym, ap, ◌∙◌, Bool, true, false, not, ◌||◌, Option, none, some, List,
  arith, if◌then◌else◌, if_cases,
}
use greenlabs_server.Comum.Texto.{Texto, dividir_em, vazio, trim_space}
use greenlabs_server.Comum.Inteiro.{ℤ, pos, leb_int, atoi}
use greenlabs_server.Ponte.{
  Ponte, Limites, Resultado, aceito, recusado, Decisao, status, conectar, origem_de, validar, de_ip,
  reservar, decidir, conferir_faixa, ler_faixa,
}
use greenlabs_server.Ponte.Validacao.{Alcancavel, validar-Alcancavel}

-- A place was taken for the request, for a target that may be reached.
abbrev pub Conectou :
    (Texto → Option (List (List ℕ)))
    → Limites
    → Texto
    → Texto
    → Ponte
    → Ponte
    → Texto
    → Texto
    → Type 0
Conectou resolver lim alvo origem p p' de para =
    Alcancavel resolver p alvo para × (de ≡ origem) × (reservar lim origem p ≡ (p', true))

-- What a decision says of the proxy before and after it.
abbrev pub Decidiu :
    (Texto → Option (List (List ℕ))) → Limites → Texto → Texto → Ponte → Ponte × Decisao → Type 0
Decidiu resolver lim alvo origem p (p', status n) = (p' ≡ p) × ((n ≡ 400) ⊎ ((n ≡ 403) ⊎ (n ≡ 429)))
Decidiu resolver lim alvo origem p (p', conectar de para) =
    Conectou resolver lim alvo origem p p' de para

reservar-recusa :
    (lim : Limites) (ip : Texto) (p : Ponte)
    → (reservar lim ip p).1 ≡ false
    → (reservar lim ip p).0 ≡ p
unfolding reservar
reservar-recusa lim ip p =
    caso (leb_int lim.total_maximo p.total || leb_int lim.por_limite (de_ip ip p)) _
  where
    caso :
        (b : Bool) (q : Ponte)
        → let r : Ponte × Bool = if b then (p, false) else (q, true) in r.1 ≡ false → r.0 ≡ p
    caso true q _ = refl
    caso false q e = cc

-- atender up to the connection: a request that is answered with a status changes nothing, and the
-- status is 400, 403 or 429; one that goes on has a target that validar accepts, and a place was
-- reserved for its origin, the header X-Real-IP if there is one and the peer's host if not.
pub decidir-Decidiu :
    (resolver : Texto → Option (List (List ℕ))) (lim : Limites) (alvo remoto x_real_ip : Texto)
    (p : Ponte)
    → Decidiu resolver lim alvo
        (origem_de remoto x_real_ip)
        p
        (decidir resolver lim alvo remoto x_real_ip p)
unfolding decidir
decidir-Decidiu resolver lim alvo remoto x_real_ip p =
    if_cases (Decidiu resolver lim alvo (origem_de remoto x_real_ip) p) (vazio alvo)
      (λ _. (refl, inl refl)) (λ _. caso (validar resolver p alvo) refl)
  where
    reserva :
        (destino : Texto) (r : Ponte × Bool)
        → Alcancavel resolver p alvo destino
        → reservar lim (origem_de remoto x_real_ip) p ≡ r
        → Decidiu resolver lim alvo (origem_de remoto x_real_ip) p (
            if r.1 then (r.0, conectar (origem_de remoto x_real_ip) destino) else (r.0, status 429))
    reserva destino (p', true) a e = (a, refl, e)
    reserva destino (p', false) a e = (
      ap (λ (s : Ponte × Bool). s.0) (sym e)
          ∙ reservar-recusa lim (origem_de remoto x_real_ip) p (ap (λ (s : Ponte × Bool). s.1) e),
      inr (inr refl),
    )

    caso :
        (o : Resultado Texto)
        → validar resolver p alvo ≡ o
        → Decidiu resolver lim alvo (origem_de remoto x_real_ip) p (elim o [
          | recusado _ ↦ (p, status 403)
          | aceito destino ↦
              (let origem = origem_de remoto x_real_ip in
                let (p', cabe) = reservar lim origem p in
                if cabe then (p', conectar origem destino) else (p', status 429))
        ])
    caso (recusado _) e = (refl, inr (inl refl))
    caso (aceito destino) e =
        reserva destino (reservar lim (origem_de remoto x_real_ip) p)
          ((validar-Alcancavel resolver p alvo destino).0 e) refl

-- A range of ports.
abbrev pub NaFaixa : ℤ → ℤ → Type 0
NaFaixa a b = (leb_int (pos 1) a ≡ true) × (leb_int a b ≡ true) × (leb_int b (pos 65535) ≡ true)

conferir_faixa-NaFaixa :
    (x y a b : ℤ) → conferir_faixa x y ≡ some (a, b) → (x ≡ a) × (y ≡ b) × NaFaixa a b
unfolding conferir_faixa
conferir_faixa-NaFaixa x y a b =
    if_cases (λ (r : Option (ℤ × ℤ)). r ≡ some (a, b) → (x ≡ a) × (y ≡ b) × NaFaixa a b)
      (not (leb_int (pos 1) x) || not (leb_int y (pos 65535)) || not (leb_int x y)) (λ _ e. cc)
      (λ t e.
        let k : x ≡ a = cc in
        let l : y ≡ b = cc in
        let u : leb_int (pos 1) x ≡ true = ground arith in
        let v : leb_int x y ≡ true = ground arith in
        let w : leb_int y (pos 65535) ≡ true = ground arith in
        (k, l, (rw k at u, rw (k, l) at v, rw l at w)))

-- lerFaixa: a range that is read has the two numbers of the text around its first '-', in order, and
-- they lie in 1..65535.
pub ler_faixa-Dentro :
    (texto : Texto) (a b : ℤ)
    → ler_faixa texto ≡ some (a, b)
    → (x : Texto) × (y : Texto) × (dividir_em b'-' texto ≡ some (x, y))
      × (atoi (trim_space x) ≡ some a)
      × (atoi (trim_space y) ≡ some b)
      × NaFaixa a b
unfolding ler_faixa
ler_faixa-Dentro texto a b = caso (dividir_em b'-' texto)
  where
    Lida : Option (ℤ × ℤ) → Type 0
    Lida o = o ≡ some (a, b)

    segunda :
        (x y : Texto) (u : ℤ) (o : Option ℤ)
        → Lida (elim o [ none ↦ none | some v ↦ conferir_faixa u v ])
        → (o ≡ some b) × (u ≡ a) × NaFaixa a b
    segunda x y u none e = cc
    segunda x y u (some v) e = let (k, l, m) = conferir_faixa-NaFaixa u v a b e in (ap some l, k, m)

    primeira :
        (x y : Texto) (o : Option ℤ)
        → Lida (elim o [
          | none ↦ none
          | some u ↦ elim (atoi (trim_space y)) [ none ↦ none | some v ↦ conferir_faixa u v ]
        ])
        → (o ≡ some a) × (atoi (trim_space y) ≡ some b) × NaFaixa a b
    primeira x y none e = cc
    primeira x y (some u) e =
        let (k, l, m) = segunda x y u (atoi (trim_space y)) e in (ap some l, k, m)

    caso :
        (o : Option (Texto × Texto))
        → Lida (elim o [
          | none ↦ none
          | some (x, y) ↦ elim (atoi (trim_space x)) [
            | none ↦ none
            | some u ↦ elim (atoi (trim_space y)) [ none ↦ none | some v ↦ conferir_faixa u v ]
          ]
        ])
        → (x : Texto) × (y : Texto) × (o ≡ some (x, y))
          × (atoi (trim_space x) ≡ some a)
          × (atoi (trim_space y) ≡ some b)
          × NaFaixa a b
    caso none e = cc
    caso (some (x, y)) e =
        let (k, l, m) = primeira x y (atoi (trim_space x)) e in (x, y, refl, k, l, m)
