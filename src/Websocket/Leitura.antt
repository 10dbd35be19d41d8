-- ===== src/Websocket/Leitura.antt =====
-- src/websocket.go: the frames that come from the client, and the messages made of them.
-- `ler_quadro` is lerQuadro, `ler` is Ler. Reading takes bytes off the head of `Rede.entrada`.
pub mod Consumo
pub mod Quadros
pub mod Limites
pub mod Mensagens
pub mod Fragmentos
use Prim.Native.Nat.{bit_and, bit_xor}
use greenlabs_server.Comum.{
  ℕ, zero, suc, ◌+◌, ◌*◌, Bool, true, false, not, ◌&&◌, ◌||◌, Option, none, some, List, [], ◌∷◌,
  ◌++◌, ltb, leb, ◌==◌, if◌then◌else◌, length, take, drop, get_or,
}
use greenlabs_server.Websocket.{
  Conn, Rede, QuadroSaida, Erro, Resultado, ok, err, enfileirar, op_continuacao, op_texto,
  op_binario, op_fechar, op_ping, op_pong, tamanho_maximo_mensagem, eof, eof_inesperado,
  rede_fechada, mensagem_nova, continuacao_sem_inicio, fragmentada_grande, opcode_desconhecido,
  bits_rsv, controle_invalido, sem_mascara, quadro_grande, sem_combustivel,
}

-- `if err != nil { return …, err }`, and without a result that is read.
infixl 5 ◌>>=◌
abbrev pub ◌>>=◌ {ℓ κ} : {A : Type ℓ} {B : Type κ} → Resultado A → (A → Resultado B) → Resultado B
err falhou >>= depois = err falhou
ok lido >>= depois = depois lido

infixl 5 ◌>>◌
abbrev pub ◌>>◌ {κ} : {B : Type κ} → Resultado (Unit {0}) → Resultado B → Resultado B
antes >> depois = antes >>= λ _. depois

-- `if !b { return …, e }`.
abbrev pub exigir : Bool → Erro → Resultado (Unit {0})
exigir false falhou = err falhou
exigir true falhou = ok tt

pub record QuadroLido : Type 0 where
  pub fim : Bool
  pub opcode : ℕ
  pub dados : List ℕ

-- How a read ends that finds fewer bytes than it wants: io.ReadFull turns the end of the stream
-- into ErrUnexpectedEOF once a byte has come.
unfoldable pub falta : List ℕ → Erro → Erro
falta [] e = e
falta (b ∷ bs) eof = eof_inesperado
falta (b ∷ bs) e = e

-- io.ReadFull of `n` bytes.
unfoldable pub ler_cheio : ℕ → Rede → Resultado (List ℕ × Rede)
ler_cheio n r =
    if leb n (length r.entrada)
    then ok (take n r.entrada, record r { entrada = drop n r.entrada })
    else err (falta r.entrada r.ao_fim)

-- binary.BigEndian.Uint16 and Uint64.
unfoldable pub be : ℕ → List ℕ → ℕ
be acc [] = acc
be acc (b ∷ bs) = be (acc * 256 + b) bs

-- The length as the second header byte gives it, or behind it in two or eight bytes.
unfoldable pub ler_tamanho : ℕ → Rede → Resultado (ℕ × Rede)
unfolding ler_cheio be
ler_tamanho t r =
    if t == 126
    then (do (ext, r') ← ler_cheio 2 r; ok (be 0 ext, r'))
    else if t == 127
    then (do (ext, r') ← ler_cheio 8 r; ok (be 0 ext, r'))
    else ok (t, r)

-- `dados[i] ^= mascara[i&3]`, from position `i` on.
unfoldable pub desmascarar : List ℕ → ℕ → List ℕ → List ℕ
desmascarar m i [] = []
desmascarar m i (d ∷ ds) = bit_xor d (get_or m (bit_and i 3) 0) ∷ desmascarar m (i + 1) ds

unfoldable pub ler_corpo : ℕ → Rede → Resultado (List ℕ × Rede)
unfolding ler_cheio desmascarar
ler_corpo tamanho r = do
  (mascara, r') ← ler_cheio 4 r
  (dados, r'') ← ler_cheio tamanho r'
  ok (desmascarar mascara 0 dados, r'')

-- The header and the checks on it: FIN, the opcode, the mask bit, the length of seven bits.
pub record Cabecalho : Type 0 where
  pub fim : Bool
  pub opcode : ℕ
  pub mascarado : Bool
  pub tamanho : ℕ

unfoldable pub cabecalho_de : ℕ → ℕ → Cabecalho
cabecalho_de b0 b1 = record {
  fim = not (bit_and b0 0x80 == 0);
  opcode = bit_and b0 0x0f;
  mascarado = not (bit_and b1 0x80 == 0);
  tamanho = bit_and b1 0x7f;
}

unfoldable pub conferir : ℕ → ℕ → Resultado Cabecalho
unfolding cabecalho_de
conferir b0 b1 = do
  let c = cabecalho_de b0 b1
  exigir (bit_and b0 0x70 == 0) bits_rsv
  exigir (not (leb 0x8 c.opcode && (not c.fim || ltb 125 c.tamanho))) controle_invalido
  ok c

-- A read of no bytes (an empty body) always succeeds.
unfoldable pub ler_aberta : Rede → Resultado (QuadroLido × Rede)
ler_aberta r = do
  (cab, r1) ← ler_cheio 2 r
  c ← conferir (get_or cab 0 0) (get_or cab 1 0)
  (tamanho, r2) ← ler_tamanho c.tamanho r1
  exigir c.mascarado sem_mascara
  exigir (leb tamanho tamanho_maximo_mensagem) quadro_grande
  (dados, r3) ← ler_corpo tamanho r2
  ok (record { fim = c.fim; opcode = c.opcode; dados = dados }, r3)

-- SetReadDeadline fails on a closed socket.
unfoldable pub ler_quadro : Rede → Resultado (QuadroLido × Rede)
ler_quadro r = exigir (not r.fechada) rede_fechada >> ler_aberta r

-- What a lerQuadro that fails leaves to be read: io.ReadFull that finds too few bytes takes those
-- there are, and a check that fails comes behind what was read for it.
unfoldable pub sobra_da_falha : Rede → List ℕ
unfolding ler_cheio conferir ler_tamanho
sobra_da_falha r = if r.fechada then r.entrada else elim (ler_cheio 2 r) [
  | err e ↦ []
  | ok (cab, r1) ↦ elim (conferir (get_or cab 0 0) (get_or cab 1 0)) [
    | err e ↦ r1.entrada
    | ok c ↦ elim (ler_tamanho c.tamanho r1) [
      | err e ↦ []
      | ok (tamanho, r2) ↦
          if not c.mascarado || ltb tamanho_maximo_mensagem tamanho then r2.entrada else []
    ]
  ]
]

abbrev pub apos_falha : Conn → Conn
apos_falha c = record c { rede = record c.rede { entrada = sobra_da_falha c.rede } }

-- What the loop of Ler does after a frame: read on, return a message, or return an error.
pub data Segue : Type 0 where
  continua : Segue
  entrega : List ℕ → Segue
  falha : Erro → Segue

-- Behind the switch: `if fim { … return mensagem }`.
unfoldable pub fechar_mensagem : Bool → Conn → Conn × Segue
fechar_mensagem fim c =
    if fim
    then (record c { montagem = []; montando = false }, entrega c.montagem)
    else (c, continua)

unfoldable pub tratar_dados : QuadroLido → Conn → Conn × Segue
unfolding fechar_mensagem
tratar_dados q c =
    if c.montando
    then (c, falha mensagem_nova)
    else fechar_mensagem q.fim (record c { montagem = q.dados; montando = true })

unfoldable pub tratar_continuacao : QuadroLido → Conn → Conn × Segue
unfolding fechar_mensagem
tratar_continuacao q c =
    if not c.montando
    then (c, falha continuacao_sem_inicio)
    else if ltb tamanho_maximo_mensagem (length c.montagem + length q.dados)
    then (c, falha fragmentada_grande)
    else fechar_mensagem q.fim (record c { montagem = c.montagem ++ q.dados })

unfoldable pub tratar_ping : QuadroLido → Conn → Conn × Segue
tratar_ping q c =
    let (c', e) = enfileirar (record { opcode = op_pong; dados = q.dados }) c in
    elim e [ none ↦ (c', continua) | some x ↦ (c', falha x) ]

-- The switch on the opcode.
unfoldable pub tratar_quadro : QuadroLido → Conn → Conn × Segue
tratar_quadro q c =
    if q.opcode == op_ping
    then tratar_ping q c
    else if q.opcode == op_pong
    then (c, continua)
    else if q.opcode == op_fechar
    then ((enfileirar (record { opcode = op_fechar; dados = [] }) c).0, falha eof)
    else if q.opcode == op_texto || q.opcode == op_binario
    then tratar_dados q c
    else if q.opcode == op_continuacao
    then tratar_continuacao q c
    else (c, falha opcode_desconhecido)

-- The loop of Ler. Each round takes a frame of two bytes or more off the input, so one round more
-- than it has bytes is enough.
unfoldable pub ler_laco : ℕ → Conn → Conn × Resultado (List ℕ)
ler_laco zero c = (c, err sem_combustivel)
ler_laco (suc n) c = elim (ler_quadro c.rede) [
  | err e ↦ (apos_falha c, err e)
  | ok (q, r) ↦
      (let (c', s) = tratar_quadro q (record c { rede = r }) in
        let resto = ler_laco n c' in
        elim s [ continua ↦ resto | entrega m ↦ (c', ok m) | falha e ↦ (c', err e) ])
]

unfoldable pub ler : Conn → Conn × Resultado (List ℕ)
unfolding ler_laco
ler c = ler_laco (suc (length c.rede.entrada)) c
