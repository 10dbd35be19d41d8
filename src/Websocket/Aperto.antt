-- ===== src/Websocket/Aperto.antt =====
-- src/websocket.go, AceitarWebSocket and cabecalhoContem: the handshake.
-- A request is the headers that are read, with the empty text for one that is missing. Taking over
-- the socket gives a `Rede` or an error; the signature of the key (base64 over SHA-1) is an argument.
use greenlabs_server.Comum.{
  ℕ, ◌-◌, ◌≡◌, refl, ap, ◌∙◌, Bool, true, false, not, ◌&&◌, ◌||◌, Option, none, some, List, [], ◌∷◌,
  ◌++◌, leb, ◌==◌, take, ==_iff, if◌then◌else◌, if_cases, length, arith,
}
use greenlabs_server.Comum.Texto.{Texto, codes, eq_texto, vazio, trim_space, equal_fold}
use greenlabs_server.Websocket.{
  Rede, Conn, Resultado, ok, err, sem_upgrade, sem_connection, versao_nao_suportada, sem_chave,
  escrita_falhou, nova_conn,
}

-- strings.Split at one byte.
abbrev na_frente : ℕ → List Texto → List Texto
na_frente c [] = (c ∷ []) ∷ []
na_frente c (p ∷ ps) = (c ∷ p) ∷ ps

unfoldable pub separar : ℕ → Texto → List Texto
separar c [] = [] ∷ []
separar c (x ∷ xs) = let resto = separar c xs in if x == c then [] ∷ resto else na_frente x resto

unfoldable pub algum_igual : List Texto → Texto → Bool
algum_igual [] procurado = false
algum_igual (p ∷ ps) procurado = equal_fold (trim_space p) procurado || algum_igual ps procurado

unfoldable pub cabecalho_contem : Texto → Texto → Bool
unfolding separar algum_igual
cabecalho_contem valor procurado = algum_igual (separar b',' valor) procurado

pub record Pedido : Type 0 where
  pub upgrade : Texto
  pub connection : Texto
  pub versao : Texto
  pub chave : Texto

-- The two tests by which the server tells a WebSocket from other requests.
unfoldable pub eh_pedido_websocket : Pedido → Bool
eh_pedido_websocket p =
    equal_fold p.upgrade (codes "websocket") && cabecalho_contem p.connection (codes "upgrade")

abbrev pub guid_websocket : Texto
guid_websocket = codes "258EAFA5-E914-47DA-95CA-C5AB0DC85B11"

unfoldable pub resposta_do_aperto : (Texto → Texto) → Texto → List ℕ
resposta_do_aperto assinar chave =
    codes "HTTP/1.1 101 Switching Protocols\r\nUpgrade: websocket\r\nConnection: Upgrade\r\n"
    ++ (codes "Sec-WebSocket-Accept: " ++ (assinar (chave ++ guid_websocket) ++ codes "\r\n\r\n"))

-- The answer leaves in one piece, or the socket is closed: the second result is a socket that was
-- taken over and given up.
unfoldable pub responder_aperto : List ℕ → Rede → Resultado Conn × Option Rede
responder_aperto resposta r =
    if leb (length resposta) r.capacidade
    then (
      ok (
          nova_conn (record r {
            enviado = r.enviado ++ resposta;
            capacidade = r.capacidade - length resposta;
          })),
      none,
    )
    else (
      err escrita_falhou,
      some (record r {
        fechada = true;
        enviado = r.enviado ++ take r.capacidade resposta;
        capacidade = 0;
      }),
    )

unfoldable pub aceitar_websocket :
    (Texto → Texto) → Pedido → Resultado Rede → Resultado Conn × Option Rede
unfolding responder_aperto
aceitar_websocket assinar p sequestro =
    if not (equal_fold p.upgrade (codes "websocket"))
    then (err sem_upgrade, none)
    else if not (cabecalho_contem p.connection (codes "upgrade"))
    then (err sem_connection, none)
    else if not (eq_texto p.versao (codes "13"))
    then (err versao_nao_suportada, none)
    else if vazio p.chave
    then (err sem_chave, none)
    else elim sequestro [
      | err e ↦ (err e, none)
      | ok r ↦ responder_aperto (resposta_do_aperto assinar p.chave) r
    ]

algum_igual-na_frente :
    (x : ℕ) (xs : Texto) (ps : List Texto) (procurado : Texto)
    → algum_igual (na_frente x (xs ∷ ps)) procurado
      ≡ (equal_fold (trim_space (x ∷ xs)) procurado || algum_igual ps procurado)
unfolding algum_igual
algum_igual-na_frente x xs ps procurado = refl

-- The pieces of a text with a comma: those before it and those behind it.
abbrev colar : List Texto → List Texto → List Texto
colar [] qs = qs
colar (p ∷ ps) qs = p ∷ colar ps qs

na_frente-colar :
    (x c : ℕ) (xs : Texto) (qs : List Texto)
    → na_frente x (colar (separar c xs) qs) ≡ colar (na_frente x (separar c xs)) qs
unfolding separar
na_frente-colar x c [] qs = refl
na_frente-colar x c (y ∷ ys) qs =
    if_cases (λ (s : List Texto). na_frente x (colar s qs) ≡ colar (na_frente x s) qs) (y == c)
      (λ _. refl) (λ _. caso (separar c ys))
  where
    caso :
        (s : List Texto)
        → na_frente x (colar (na_frente y s) qs) ≡ colar (na_frente x (na_frente y s)) qs
    caso [] = refl
    caso (p ∷ ps) = refl

separar-append :
    (c : ℕ) (xs ys : Texto) → separar c (xs ++ (c ∷ ys)) ≡ colar (separar c xs) (separar c ys)
unfolding separar
separar-append c [] ys = rw ((==_iff c c).1 refl)
separar-append c (x ∷ xs) ys = rw (separar-append c xs ys) (
    if_cases
      (λ (s : List Texto).
        s ≡ colar (if x == c then [] ∷ separar c xs else na_frente x (separar c xs)) (separar c ys))
      (x == c) (λ t. rw t refl) (λ f. rw f (na_frente-colar x c xs (separar c ys))))

algum_igual-colar :
    (ps qs : List Texto) (procurado : Texto)
    → algum_igual (colar ps qs) procurado ≡ (algum_igual ps procurado || algum_igual qs procurado)
unfolding algum_igual
algum_igual-colar [] qs procurado = refl
algum_igual-colar (p ∷ ps) qs procurado = ground (arith, algum_igual-colar ps qs procurado)

-- cabecalhoContem looks at each part of a header's list on its own: a list has the word exactly if
-- what stands before a comma has it, or what stands behind.
pub cabecalho_contem-append :
    (a b procurado : Texto)
    → cabecalho_contem (a ++ (b',' ∷ b)) procurado
      ≡ (cabecalho_contem a procurado || cabecalho_contem b procurado)
unfolding cabecalho_contem
cabecalho_contem-append a b procurado =
    ap (λ (s : List Texto). algum_igual s procurado) (separar-append b',' a b)
    ∙ algum_igual-colar (separar b',' a) (separar b',' b) procurado

-- What a connection that was accepted comes from.
abbrev pub Aceitou : (Texto → Texto) → Pedido → Resultado Rede → Conn → Type 0
Aceitou assinar p sequestro c =
    (eh_pedido_websocket p ≡ true)
    × (eq_texto p.versao (codes "13") ≡ true)
    × (vazio p.chave ≡ false)
    × ((r : Rede) × (sequestro ≡ ok r)
        × (c.rede.enviado ≡ r.enviado ++ resposta_do_aperto assinar p.chave)
        × (c.rede.entrada ≡ r.entrada)
        × (c.saida ≡ [])
        × (c.fechado ≡ false))

responder_aperto_lem :
    (resposta : List ℕ) (r : Rede) (c : Conn)
    → (responder_aperto resposta r).0 ≡ ok c
    → (c.rede.enviado ≡ r.enviado ++ resposta)
      × (c.rede.entrada ≡ r.entrada)
      × (c.saida ≡ [])
      × (c.fechado ≡ false)
unfolding responder_aperto nova_conn
responder_aperto_lem resposta r c h = ground arith

-- AceitarWebSocket returns a connection only for a request that the server takes for a WebSocket,
-- of version 13, with a key, whose socket was taken over; the whole answer was sent, the bytes that
-- the client had sent are still to be read, nothing is queued, and the connection is open.
pub aceitar_websocket-Aceitou :
    (assinar : Texto → Texto) (p : Pedido) (sequestro : Resultado Rede) (c : Conn)
    → (aceitar_websocket assinar p sequestro).0 ≡ ok c
    → Aceitou assinar p sequestro c
unfolding aceitar_websocket eh_pedido_websocket
aceitar_websocket-Aceitou assinar p sequestro c =
    if_cases Bom (not (equal_fold p.upgrade (codes "websocket"))) (λ _ h. cc)
      (λ a.
        if_cases Bom (not (cabecalho_contem p.connection (codes "upgrade"))) (λ _ h. cc)
          (λ b.
            if_cases Bom (not (eq_texto p.versao (codes "13"))) (λ _ h. cc)
              (λ v.
                if_cases Bom (vazio p.chave) (λ _ h. cc)
                  (λ k h. (ground arith, ground arith, k, caso sequestro h)))))
  where
    Bom : Resultado Conn × Option Rede → Type 0
    Bom o = o.0 ≡ ok c → Aceitou assinar p sequestro c

    caso :
        (o : Resultado Rede)
        → (let q : Resultado Conn × Option Rede = elim o [
          | err e ↦ (err e, none)
          | ok r ↦ responder_aperto (resposta_do_aperto assinar p.chave) r
        ] in
            q.0)
          ≡ ok c
        → (r : Rede) × (o ≡ ok r)
          × (c.rede.enviado ≡ r.enviado ++ resposta_do_aperto assinar p.chave)
          × (c.rede.entrada ≡ r.entrada)
          × (c.saida ≡ [])
          × (c.fechado ≡ false)
    caso (err e) h = cc
    caso (ok r) h =
        let (a, b, d, f) = responder_aperto_lem (resposta_do_aperto assinar p.chave) r c h in
        (r, refl, a, b, d, f)

-- A socket that AceitarWebSocket took over and gives up is closed, and it makes no connection of it.
abbrev Desistiu : Resultado Conn × Option Rede → Type 0
Desistiu q = (r : Rede) → q.1 ≡ some r → (r.fechada ≡ true) × (q.0 ≡ err escrita_falhou)

nada-Desistiu : (q : Resultado Conn) → Desistiu (q, none)
nada-Desistiu q r h = absurd (ground (arith, h))

responder_aperto-Desistiu : (bs : List ℕ) (r : Rede) → Desistiu (responder_aperto bs r)
unfolding responder_aperto
responder_aperto-Desistiu bs r =
    if_cases Desistiu (leb (length bs) r.capacidade) (λ _ x h. absurd (ground (arith, h)))
      (λ _ x h. (ground (arith, h), refl))

aceitar_websocket-Desistiu :
    (assinar : Texto → Texto) (p : Pedido) (sequestro : Resultado Rede)
    → Desistiu (aceitar_websocket assinar p sequestro)
unfolding aceitar_websocket
aceitar_websocket-Desistiu assinar p sequestro =
    if_cases Desistiu (not (equal_fold p.upgrade (codes "websocket"))) (λ _. nada-Desistiu _)
      (λ _.
        if_cases Desistiu (not (cabecalho_contem p.connection (codes "upgrade")))
          (λ _. nada-Desistiu _)
          (λ _.
            if_cases Desistiu (not (eq_texto p.versao (codes "13"))) (λ _. nada-Desistiu _)
              (λ _.
                if_cases Desistiu (vazio p.chave) (λ _. nada-Desistiu _) (λ _. caso sequestro))))
  where
    caso :
        (o : Resultado Rede)
        → Desistiu (elim o [
          | err e ↦ (err e, none)
          | ok r ↦ responder_aperto (resposta_do_aperto assinar p.chave) r
        ])
    caso (err e) = nada-Desistiu (err e)
    caso (ok r) = responder_aperto-Desistiu (resposta_do_aperto assinar p.chave) r
