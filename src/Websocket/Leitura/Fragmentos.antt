-- ===== src/Websocket/Leitura/Fragmentos.antt =====
-- src/websocket.go: Ler puts a fragmented message together, with control frames between its pieces.
use greenlabs_server.Comum.{
  ℕ, zero, suc, ◌+◌, ◌≤◌, ◌<◌, ◌≡◌, refl, sym, ap, ◌∙◌, Bool, true, false, List, [], ◌∷◌, ◌++◌,
  length, length-append, arith, All, append_assoc,
}
use greenlabs_server.Websocket.{
  Conn, Rede, ok, tamanho_maximo_mensagem, op_continuacao, op_texto, op_pong,
}
use greenlabs_server.Websocket.Leitura.{
  QuadroLido, ler_quadro, Segue, continua, entrega, fechar_mensagem, tratar_dados,
  tratar_continuacao, tratar_quadro, ler_laco, ler,
}
use greenlabs_server.Websocket.Leitura.Quadros.{
  lendo, quadro_cliente, IsQuadro, ler_quadro-quadro_cliente,
}

-- What may stand between the first frame of a message and its last one: the masking key of a frame
-- and its payload.
pub data Pedaco : Type 0 where
  pedaco pongue : List ℕ → List ℕ → Pedaco

abbrev pub dados_de : Pedaco → List ℕ
dados_de (pedaco m d) = d
dados_de (pongue m d) = []

abbrev pub juntar : List Pedaco → List ℕ
juntar [] = []
juntar (p ∷ ps) = dados_de p ++ juntar ps

abbrev pub quadro_do_pedaco : Pedaco → List ℕ
quadro_do_pedaco (pedaco m d) = quadro_cliente false op_continuacao m d
quadro_do_pedaco (pongue m d) = quadro_cliente true op_pong m d

abbrev pub bytes_do_meio : List Pedaco → List ℕ
bytes_do_meio [] = []
bytes_do_meio (p ∷ ps) = quadro_do_pedaco p ++ bytes_do_meio ps

abbrev pub IsPedaco : Pedaco → Type 0
IsPedaco (pedaco m d) = IsQuadro false op_continuacao m d
IsPedaco (pongue m d) = IsQuadro true op_pong m d

-- The connection while it assembles, with `ys` to be read.
abbrev pub em : Conn → Rede → List ℕ → List ℕ → Bool → Conn
em c r ys montagem montando = record c {
  rede = lendo r ys;
  montagem = montagem;
  montando = montando;
}

rodada_continua :
    (n : ℕ) (c : Conn) (q : QuadroLido) (r : Rede) (c' : Conn)
    → ler_quadro c.rede ≡ ok (q, r)
    → tratar_quadro q (record c { rede = r }) ≡ (c', continua)
    → ler_laco (suc n) c ≡ ler_laco n c'
unfolding ler_laco
rodada_continua n c q r c' e f =
    rw (e, ler_laco) (rw f (ap (λ (p : Conn × Segue). ler_laco n p.0) f))

pub rodada_entrega :
    (n : ℕ) (c : Conn) (q : QuadroLido) (r : Rede) (c' : Conn) (m : List ℕ)
    → ler_quadro c.rede ≡ ok (q, r)
    → tratar_quadro q (record c { rede = r }) ≡ (c', entrega m)
    → ler_laco (suc n) c ≡ (c', ok m)
unfolding ler_laco
rodada_entrega n c q r c' m e f = rw (e, ler_laco) (rw f (ap (λ (p : Conn × Segue). (p.0, ok m)) f))

continuacao :
    (c : Conn) (r : Rede) (ys x d : List ℕ)
    → length x + length d ≤ tamanho_maximo_mensagem
    → (tratar_quadro (record { fim = false; opcode = op_continuacao; dados = d }) (em c r ys x true)
        ≡ (em c r ys (x ++ d) true, continua))
      × (tratar_quadro
            (record { fim = true; opcode = op_continuacao; dados = d })
            (em c r ys x true)
          ≡ (em c r ys [] false, entrega (x ++ d)))
unfolding tratar_quadro tratar_continuacao fechar_mensagem
continuacao c r ys x d h = (ground arith, ground arith)

pong_ignorado :
    (c : Conn) (d : List ℕ)
    → tratar_quadro (record { fim = true; opcode = op_pong; dados = d }) c ≡ (c, continua)
unfolding tratar_quadro
pong_ignorado c d = refl

inicio :
    (c : Conn) (r : Rede) (ys d : List ℕ)
    → tratar_quadro (record { fim = false; opcode = op_texto; dados = d }) (em c r ys [] false)
      ≡ (em c r ys d true, continua)
unfolding tratar_quadro tratar_dados fechar_mensagem
inicio c r ys d = refl

-- From the first piece on: `x` is what has been put together.
meio_e_fim :
    (meio : List Pedaco) (n : ℕ) (c : Conn) (r : Rede) (m x d ys : List ℕ)
    → r.fechada ≡ false
    → All IsPedaco meio
    → IsQuadro true op_continuacao m d
    → length meio < n
    → length x + (length (juntar meio) + length d) ≤ tamanho_maximo_mensagem
    → ler_laco n
        (em c r (bytes_do_meio meio ++ (quadro_cliente true op_continuacao m d ++ ys)) x true)
      ≡ (em c r ys [] false, ok (x ++ (juntar meio ++ d)))
meio_e_fim [] zero c r m x d ys f ps v lt h = elim lt [ ]
meio_e_fim (p ∷ ps) zero c r m x d ys f vs v lt h = elim lt [ ]
meio_e_fim [] (suc n) c r m x d ys f ps v lt h =
    rodada_entrega n _ _ (lendo r ys) _ _
      (ler_quadro-quadro_cliente true op_continuacao m d ys r f v)
      (continuacao c r ys x d (omega (arith, h))).1
meio_e_fim (pedaco k e ∷ ps) (suc n) c r m x d ys f vs v lt h =
    let resto : List ℕ = bytes_do_meio ps ++ (quadro_cliente true op_continuacao m d ++ ys) in
    rw
      (append_assoc (quadro_cliente false op_continuacao k e) (bytes_do_meio ps)
        (quadro_cliente true op_continuacao m d ++ ys))
      (rodada_continua n _ _ (lendo r resto) _
          (ler_quadro-quadro_cliente false op_continuacao k e resto r f vs.0)
          (continuacao c r resto x e (omega (arith, length-append e (juntar ps)))).0
        ∙ meio_e_fim ps n c r m (x ++ e) d ys f vs.1 v (omega arith)
            (omega (arith, length-append e (juntar ps), length-append x e))
        ∙ ap (λ (t : List ℕ). (em c r ys [] false, ok t))
            (append_assoc x e (juntar ps ++ d) ∙ ap (◌++◌ x) (sym (append_assoc e (juntar ps) d))))
meio_e_fim (pongue k e ∷ ps) (suc n) c r m x d ys f vs v lt h =
    let resto : List ℕ = bytes_do_meio ps ++ (quadro_cliente true op_continuacao m d ++ ys) in
    rw
      (append_assoc (quadro_cliente true op_pong k e) (bytes_do_meio ps)
        (quadro_cliente true op_continuacao m d ++ ys))
      (rodada_continua n _ _ (lendo r resto) _
          (ler_quadro-quadro_cliente true op_pong k e resto r f vs.0)
          (pong_ignorado (em c r resto x true) e)
        ∙ meio_e_fim ps n c r m x d ys f vs.1 v (omega arith) h)

-- The frames of a fragmented text message, the first one masked with `m` and the last one with `k`.
abbrev pub mensagem_cliente : List ℕ → List ℕ → List Pedaco → List ℕ → List ℕ → List ℕ
mensagem_cliente m primeiro meio k ultimo =
    quadro_cliente false op_texto m primeiro
    ++ (bytes_do_meio meio ++ quadro_cliente true op_continuacao k ultimo)

length-quadro_cliente : (b : Bool) (o : ℕ) (m d : List ℕ) → 2 ≤ length (quadro_cliente b o m d)
unfolding quadro_cliente
length-quadro_cliente b o m d = omega arith

length-bytes_do_meio : (ps : List Pedaco) → length ps ≤ length (bytes_do_meio ps)
length-bytes_do_meio [] = omega arith
length-bytes_do_meio (pedaco k e ∷ ps) = omega (
  arith,
  length-bytes_do_meio ps,
  length-append (quadro_cliente false op_continuacao k e) (bytes_do_meio ps),
  length-quadro_cliente false op_continuacao k e,
)
length-bytes_do_meio (pongue k e ∷ ps) = omega (
  arith,
  length-bytes_do_meio ps,
  length-append (quadro_cliente true op_pong k e) (bytes_do_meio ps),
  length-quadro_cliente true op_pong k e,
)

-- Ler, on an open socket and with no message begun, returns the pieces of a fragmented text message
-- joined in order, each of its frames with a masking key of its own and whatever pongs stand between
-- them, when each frame keeps to the RFC and the pieces together are within 1 MiB; it leaves the bytes
-- behind the message and no half message.
pub ler-mensagem_cliente :
    (c : Conn) (r : Rede) (m primeiro : List ℕ) (meio : List Pedaco) (k ultimo ys : List ℕ)
    → r.fechada ≡ false
    → IsQuadro false op_texto m primeiro
    → All IsPedaco meio
    → IsQuadro true op_continuacao k ultimo
    → length primeiro + (length (juntar meio) + length ultimo) ≤ tamanho_maximo_mensagem
    → ler (em c r (mensagem_cliente m primeiro meio k ultimo ++ ys) [] false)
      ≡ (em c r ys [] false, ok (primeiro ++ (juntar meio ++ ultimo)))
unfolding ler
ler-mensagem_cliente c r m primeiro meio k ultimo ys f v vs w h =
    let fim : List ℕ = quadro_cliente true op_continuacao k ultimo in
    let resto : List ℕ = bytes_do_meio meio ++ (fim ++ ys) in
    let prim : List ℕ = quadro_cliente false op_texto m primeiro in
    let junta : (mensagem_cliente m primeiro meio k ultimo ++ ys) ≡ prim ++ resto =
      append_assoc prim (bytes_do_meio meio ++ fim) ys
      ∙ ap (◌++◌ prim) (append_assoc (bytes_do_meio meio) fim ys) in
    rw junta (
      rodada_continua _ _ _ (lendo r resto) _
        (ler_quadro-quadro_cliente false op_texto m primeiro resto r f v)
        (inicio c r resto primeiro)
      ∙ meio_e_fim meio _ c r k primeiro ultimo ys f vs w
          (omega (
            arith,
            length-append prim resto,
            length-append (bytes_do_meio meio) (fim ++ ys),
            length-bytes_do_meio meio,
            length-quadro_cliente false op_texto m primeiro,
          ))
          h)
