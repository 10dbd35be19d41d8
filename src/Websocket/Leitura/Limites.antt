-- ===== src/Websocket/Leitura/Limites.antt =====
-- src/websocket.go: what holds of every frame that lerQuadro lets through, whatever the client sent.
use Prim.Native.Nat.{bit_and}
use greenlabs_server.Comum.{
  ℕ, ◌+◌, ◌≤◌, ◌≡◌, ◌≢◌, refl, sym, ap, ◌∙◌, inl, inr, Bool, true, false, not, ◌&&◌, ◌||◌, List, [],
  ◌∷◌, Bool-cases, if_cases, ltb, leb, ◌==◌, length, get_or, get_or, arith, Bool-cases, length-take,
  length-drop, leb→le,
}
use greenlabs_server.Websocket.{
  Rede, Erro, rede_fechada, sem_combustivel, Resultado, ok, err, tamanho_maximo_mensagem, bits_rsv,
  controle_invalido, sem_mascara, quadro_grande,
}
use greenlabs_server.Websocket.Leitura.{
  ◌>>=◌, ◌>>◌, exigir, QuadroLido, falta, ler_cheio, be, ler_tamanho, ler_corpo, Cabecalho,
  cabecalho_de, conferir, ler_aberta, ler_quadro,
}
use greenlabs_server.Websocket.Leitura.Quadros.{length-desmascarar}

-- Inversion of a bind and of a check that passed.
pub >>=-eq-ok {ℓ κ} :
    {A : Type ℓ} {B : Type κ} {fim : B} (antes : Resultado A) (depois : A → Resultado B)
    → (antes >>= depois) ≡ ok fim
    → (meio : A) × (antes ≡ ok meio) × (depois meio ≡ ok fim)
>>=-eq-ok (err e) depois h = cc
>>=-eq-ok (ok meio) depois h = (meio, refl, h)

pub exigir-eq-ok {ℓ} :
    {B : Type ℓ} (t : Bool) (e : Erro) (k : Resultado B) {b : B}
    → (exigir t e >> k) ≡ ok b
    → (t ≡ true) × (k ≡ ok b)
exigir-eq-ok true e k h = (refl, h)
exigir-eq-ok false e k h = cc

-- `n` bytes came off the input, and nothing else of the socket changed.
abbrev pub Consumiu : ℕ → Rede → Rede → Type 0
Consumiu n r r' =
    (length r.entrada ≡ n + length r'.entrada) × (r' ≡ record r { entrada = r'.entrada })

ler_cheio-Consumiu :
    (n : ℕ) (r : Rede) (xs : List ℕ) (r' : Rede)
    → ler_cheio n r ≡ ok (xs, r')
    → (length xs ≡ n) × Consumiu n r r'
unfolding ler_cheio
ler_cheio-Consumiu n r xs r' h = ground (arith, length-take n r.entrada, length-drop n r.entrada)

ler_tamanho-Consumiu :
    (t n : ℕ) (r r' : Rede) → ler_tamanho t r ≡ ok (n, r') → (k : ℕ) × Consumiu k r r'
unfolding ler_tamanho
ler_tamanho-Consumiu t n r r' h = elim (Bool-cases (t == 126)) [
  | inl a ↦ lido 2 (rw a at h)
  | inr a ↦ elim (Bool-cases (t == 127)) [
    | inl b ↦ lido 8 (rw (a, b) at h)
    | inr b ↦ (0, (ground arith, ground arith))
  ]
]
  where
    lido :
        (k : ℕ)
        → ◌>>=◌ {B = ℕ × Rede} (ler_cheio k r) (λ p. ok (be 0 p.0, p.1)) ≡ ok (n, r')
        → (j : ℕ) × Consumiu j r r'
    lido k e =
        let ((x, r1), e1, h1) = >>=-eq-ok (ler_cheio k r) _ e in
        let (l, c) = ler_cheio-Consumiu k r x r1 e1 in (k, (ground arith, ground arith))

ler_corpo-Consumiu :
    (n : ℕ) (r r' : Rede) (ds : List ℕ)
    → ler_corpo n r ≡ ok (ds, r')
    → (length ds ≡ n) × Consumiu (4 + n) r r'
unfolding ler_corpo
ler_corpo-Consumiu n r r' ds h =
    let ((m, r1), e1, h1) = >>=-eq-ok (ler_cheio 4 r) _ h in
    let ((c, r2), e2, h2) = >>=-eq-ok (ler_cheio n r1) _ h1 in
    let (l1, k1) = ler_cheio-Consumiu 4 r m r1 e1 in
    let (l2, k2) = ler_cheio-Consumiu n r1 c r2 e2 in ground (arith, length-desmascarar m 0 c)

-- What the checks on the header leave.
abbrev Conferido : Cabecalho → Type 0
Conferido c = 8 ≤ c.opcode → (c.fim ≡ true) × (c.tamanho ≤ 125)

conferir-Conferido :
    (b0 b1 : ℕ) (c : Cabecalho) → conferir b0 b1 ≡ ok c → (c ≡ cabecalho_de b0 b1) × Conferido c
unfolding conferir
conferir-Conferido b0 b1 c h =
    let d : Cabecalho = cabecalho_de b0 b1 in
    let (_, h1) = exigir-eq-ok (bit_and b0 0x70 == 0) bits_rsv _ h in
    let (k, h2) =
      exigir-eq-ok (not (leb 0x8 d.opcode && (not d.fim || ltb 125 d.tamanho))) controle_invalido _
        h1 in
    (ground arith, ground arith)

ler_tamanho_curto : (t n : ℕ) (r r' : Rede) → t ≤ 125 → ler_tamanho t r ≡ ok (n, r') → n ≡ t
unfolding ler_tamanho
ler_tamanho_curto t n r r' k h = ground arith

-- What is known of a frame that was read.
pub record IsLido (r : Rede) (q : QuadroLido) (r' : Rede) : Type 0 where
  pub cabe : length q.dados ≤ tamanho_maximo_mensagem
  pub controle : 8 ≤ q.opcode → (q.fim ≡ true) × (length q.dados ≤ 125)
  pub consumo : length r'.entrada + length q.dados + 6 ≤ length r.entrada
  pub resto : r' ≡ record r { entrada = r'.entrada }
  pub aberta : r.fechada ≡ false

-- Every frame that lerQuadro returns, from an open socket, has at most 1 MiB of payload, a control
-- frame is whole and has at most 125 bytes, the frame took six bytes of input or more beside its
-- payload, and nothing else of the socket changed.
pub ler_quadro-IsLido :
    (r : Rede) (q : QuadroLido) (r' : Rede) → ler_quadro r ≡ ok (q, r') → IsLido r q r'
unfolding ler_quadro ler_aberta
ler_quadro-IsLido r q r' h =
    let (f, h0) = exigir-eq-ok (not r.fechada) rede_fechada _ h in
    let ((cab, r1), e1, h1) = >>=-eq-ok (ler_cheio 2 r) _ h0 in
    let (c, e2, h2) = >>=-eq-ok (conferir (get_or cab 0 0) (get_or cab 1 0)) _ h1 in
    let ((n, r2), e3, h3) = >>=-eq-ok (ler_tamanho c.tamanho r1) _ h2 in
    let (m, h4) = exigir-eq-ok c.mascarado sem_mascara _ h3 in
    let (t, h5) = exigir-eq-ok (leb n tamanho_maximo_mensagem) quadro_grande _ h4 in
    let ((ds, r3), e6, h6) = >>=-eq-ok (ler_corpo n r2) _ h5 in
    let (l1, k1) = ler_cheio-Consumiu 2 r cab r1 e1 in
    let (ec, cc') = conferir-Conferido _ _ c e2 in
    let (k, k2) = ler_tamanho-Consumiu c.tamanho n r1 r2 e3 in
    let (l3, k3) = ler_corpo-Consumiu n r2 r3 ds e6 in
    let limite = leb→le n tamanho_maximo_mensagem t in
    record {
      cabe = ground arith;
      controle = λ hc.
          let g = cc' (ground arith) in
          let Curto = ler_tamanho_curto c.tamanho n r1 r2 g.1 e3 in (ground arith, ground arith);
      consumo = ground arith;
      resto = ground arith;
      aberta = ground arith;
    }

-- The model's own error comes out of no read: the socket's errors are the source's.
abbrev Limpo {ℓ} : {A : Type ℓ} → Resultado A → Type ℓ
Limpo m = m ≢ err sem_combustivel

Limpo->>= {ℓ} :
    {A B : Type ℓ} (m : Resultado A) (f : A → Resultado B)
    → Limpo m
    → ((a : A) → m ≡ ok a → Limpo (f a))
    → Limpo (m >>= f)
Limpo->>= (ok a) f h k = k a refl
Limpo->>= (err e) f h k = λ g. h (ground arith)

exigir-Limpo :
    {A : Type 0} (t : Bool) (e : Erro) (k : Resultado A)
    → e ≢ sem_combustivel
    → Limpo k
    → Limpo (exigir t e >> k)
exigir-Limpo true e k h l = l
exigir-Limpo false e k h l = λ g. h (ground arith)

falta-Limpo : (xs : List ℕ) (e : Erro) → e ≢ sem_combustivel → falta xs e ≢ sem_combustivel
unfolding falta
falta-Limpo [] e h = h
falta-Limpo (b ∷ bs) e h = ground arith

ler_cheio-Limpo : (n : ℕ) (r : Rede) → r.ao_fim ≢ sem_combustivel → Limpo (ler_cheio n r)
unfolding ler_cheio
ler_cheio-Limpo n r h = λ g. falta-Limpo r.entrada r.ao_fim h (ground arith)

ler_tamanho-Limpo : (t : ℕ) (r : Rede) → r.ao_fim ≢ sem_combustivel → Limpo (ler_tamanho t r)
unfolding ler_tamanho
ler_tamanho-Limpo t r h =
    if_cases Limpo (t == 126)
      (λ _. Limpo->>= (ler_cheio 2 r) _ (ler_cheio-Limpo 2 r h) (λ a e g. cc))
      (λ _.
        if_cases Limpo (t == 127)
          (λ _. Limpo->>= (ler_cheio 8 r) _ (ler_cheio-Limpo 8 r h) (λ a e g. cc)) (λ _ g. cc))

mesmo_fim :
    (r r' : Rede)
    → r' ≡ record r { entrada = r'.entrada }
    → r.ao_fim ≢ sem_combustivel
    → r'.ao_fim ≢ sem_combustivel
mesmo_fim r r' e h = λ g. h (ap (λ (x : Rede). x.ao_fim) (sym e) ∙ g)

ler_corpo-Limpo : (n : ℕ) (r : Rede) → r.ao_fim ≢ sem_combustivel → Limpo (ler_corpo n r)
unfolding ler_corpo
ler_corpo-Limpo n r h = Limpo->>= (ler_cheio 4 r) _ (ler_cheio-Limpo 4 r h) λ a e.
    Limpo->>= (ler_cheio n a.1) _
      (ler_cheio-Limpo n a.1 (mesmo_fim r a.1 (ler_cheio-Consumiu 4 r a.0 a.1 e).1.1 h))
      (λ b e' g. cc)

conferir-Limpo : (b0 b1 : ℕ) → Limpo (conferir b0 b1)
unfolding conferir
conferir-Limpo b0 b1 =
    let c = cabecalho_de b0 b1 in
    exigir-Limpo (bit_and b0 0x70 == 0) bits_rsv _ (λ e. cc)
      (exigir-Limpo (not (leb 0x8 c.opcode && (not c.fim || ltb 125 c.tamanho))) controle_invalido
        (ok c) (λ e. cc) (λ e. cc))

-- A read of a frame ends with the frame or an error of the source, not with the error that the model
-- adds for a loop that ran out of rounds.
pub ler_quadro-Limpo : (r : Rede) → r.ao_fim ≢ sem_combustivel → ler_quadro r ≢ err sem_combustivel
unfolding ler_quadro ler_aberta
ler_quadro-Limpo r h =
    exigir-Limpo (not r.fechada) rede_fechada _ (λ e. cc)
      (Limpo->>= (ler_cheio 2 r) _ (ler_cheio-Limpo 2 r h) λ a e.
        let h1 = mesmo_fim r a.1 (ler_cheio-Consumiu 2 r a.0 a.1 e).1.1 h in
        Limpo->>= (conferir (get_or a.0 0 0) (get_or a.0 1 0)) _
          (conferir-Limpo (get_or a.0 0 0) (get_or a.0 1 0))
          λ c _.
            Limpo->>= (ler_tamanho c.tamanho a.1) _ (ler_tamanho-Limpo c.tamanho a.1 h1) λ b e'.
              let h2 = mesmo_fim a.1 b.1 (ler_tamanho-Consumiu c.tamanho b.0 a.1 b.1 e').1.1 h1 in
              exigir-Limpo c.mascarado sem_mascara _ (λ e. cc)
                (exigir-Limpo (leb b.0 tamanho_maximo_mensagem) quadro_grande _ (λ e. cc)
                  (Limpo->>= (ler_corpo b.0 b.1) _ (ler_corpo-Limpo b.0 b.1 h2) (λ d _ g. cc))))
