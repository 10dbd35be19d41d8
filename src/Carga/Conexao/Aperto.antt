-- ===== src/Carga/Conexao/Aperto.antt =====
-- ferramentas/carga/main.go and src/websocket.go: the handshake of the load meter with the server.
use mathlib.Core.List.{reverse, reverse_aux}
use greenlabs_server.Comum.{
  ℕ, suc, ◌-◌, ◌≤◌, ◌≡◌, refl, sym, ap, ◌∙◌, Bool, true, false, some, List, [], ◌∷◌, ◌++◌,
  append_assoc, leb, ◌==◌, if◌then◌else◌, if_cases, length, drop, arith,
}
use greenlabs_server.Comum.Texto.{
  Texto, codes, vazio, has_prefix, trim_space, trim_left, trim_right, is_space, dividir_em,
}
use greenlabs_server.Websocket.{Rede, Conn, Resultado, ok, err}
use greenlabs_server.Websocket.Aperto.{
  Pedido, resposta_do_aperto, guid_websocket, aceitar_websocket, aceitar_websocket-Aceitou,
}
use greenlabs_server.Carga.Conexao.{
  base64, pedido_de_aperto, contem_texto, escrever_tudo, ler_linha_da_rede, pular_cabecalhos,
  Conexao, conectado, falhou, da_rede, depois_do_status, conectar,
}

abbrev pub sem_fim_de_linha : Texto → Bool
sem_fim_de_linha [] = true
sem_fim_de_linha (c ∷ cs) = if c == 10 then false else sem_fim_de_linha cs

dividir_em-append :
    (linha resto : Texto)
    → sem_fim_de_linha linha ≡ true
    → dividir_em 10 (linha ++ (10 ∷ resto)) ≡ some (linha, resto)
unfolding dividir_em
dividir_em-append [] resto e = refl
dividir_em-append (c ∷ cs) resto e = ground (arith, dividir_em-append cs resto, e)

ler_linha_da_rede_lem :
    (r : Rede) (linha resto : Texto)
    → sem_fim_de_linha linha ≡ true
    → ler_linha_da_rede (record r { entrada = linha ++ (10 ∷ resto) })
      ≡ ok (linha ++ (10 ∷ []), record r { entrada = resto })
unfolding ler_linha_da_rede
ler_linha_da_rede_lem r linha resto s = rw (dividir_em-append linha resto s, ler_linha_da_rede) refl

-- A header line is skipped, and the blank line ends the loop.
pular_cabecalhos_linha :
    (n : ℕ) (r : Rede) (linha resto : Texto)
    → sem_fim_de_linha linha ≡ true
    → vazio (trim_space (linha ++ (10 ∷ []))) ≡ false
    → pular_cabecalhos (suc n) (record r { entrada = linha ++ (10 ∷ resto) })
      ≡ pular_cabecalhos n (record r { entrada = resto })
unfolding pular_cabecalhos
pular_cabecalhos_linha n r linha resto s v =
    rw (ler_linha_da_rede_lem r linha resto s, pular_cabecalhos, v) refl

pular_cabecalhos_fim :
    (n : ℕ) (r : Rede) (linha resto : Texto)
    → sem_fim_de_linha linha ≡ true
    → vazio (trim_space (linha ++ (10 ∷ []))) ≡ true
    → pular_cabecalhos (suc n) (record r { entrada = linha ++ (10 ∷ resto) })
      ≡ ok (record r { entrada = resto })
unfolding pular_cabecalhos
pular_cabecalhos_fim n r linha resto s v =
    rw (ler_linha_da_rede_lem r linha resto s, pular_cabecalhos, v) refl

-- A text with a character that is no blank in front is not blank.
reverse_aux-vazio : (xs : Texto) (y : ℕ) (ys : Texto) → vazio (reverse_aux xs (y ∷ ys)) ≡ false
reverse_aux-vazio [] y ys = refl
reverse_aux-vazio (x ∷ xs) y ys = reverse_aux-vazio xs x (y ∷ ys)

reverse-vazio : (xs : Texto) → vazio xs ≡ false → vazio (reverse xs) ≡ false
reverse-vazio [] e = absurd (ground (arith, e))
reverse-vazio (x ∷ xs) e = reverse_aux-vazio xs x []

trim_left-vazio :
    (corte : ℕ → Bool) (ys : Texto) (c : ℕ)
    → corte c ≡ false
    → vazio (trim_left corte (ys ++ (c ∷ []))) ≡ false
unfolding trim_left
trim_left-vazio corte [] c e = rw e refl
trim_left-vazio corte (y ∷ ys) c e =
    if_cases (λ (t : Texto). vazio t ≡ false) (corte y) (λ _. trim_left-vazio corte ys c e)
      (λ _. refl)

trim_left-reverse_aux :
    (corte : ℕ → Bool) (xs ys : Texto) (c : ℕ)
    → corte c ≡ false
    → vazio (trim_left corte (reverse_aux xs (ys ++ (c ∷ [])))) ≡ false
trim_left-reverse_aux corte [] ys c e = trim_left-vazio corte ys c e
trim_left-reverse_aux corte (x ∷ xs) ys c e = trim_left-reverse_aux corte xs (x ∷ ys) c e

trim_space-vazio : (c : ℕ) (cs : Texto) → is_space c ≡ false → vazio (trim_space (c ∷ cs)) ≡ false
unfolding trim_space trim_left trim_right
trim_space-vazio c cs e = rw e (
    reverse-vazio (trim_left is_space (reverse_aux cs (c ∷ [])))
      (trim_left-reverse_aux is_space cs [] c e))

abbrev pub linha_aceite : Texto → Texto
linha_aceite assinatura = codes "Sec-WebSocket-Accept: " ++ (assinatura ++ (13 ∷ []))

abbrev pub linhas_do_servidor : Texto → Texto → Texto
linhas_do_servidor assinatura depois =
    codes "Upgrade: websocket\r"
    ++ (10
        ∷ (codes "Connection: Upgrade\r"
            ++ (10 ∷ (linha_aceite assinatura ++ (10 ∷ ((13 ∷ []) ++ (10 ∷ depois)))))))

sem_fim_de_linha-append :
    (s t : Texto)
    → sem_fim_de_linha s ≡ true
    → sem_fim_de_linha t ≡ true
    → sem_fim_de_linha (s ++ t) ≡ true
sem_fim_de_linha-append [] t a b = b
sem_fim_de_linha-append (c ∷ cs) t a b = ground (arith, sem_fim_de_linha-append cs t, a, b)

aceite-aninhado :
    (s depois : Texto)
    → (s ++ codes "\r\n\r\n") ++ depois ≡ (s ++ (13 ∷ [])) ++ (10 ∷ ((13 ∷ []) ++ (10 ∷ depois)))
aceite-aninhado s depois =
    append_assoc s (codes "\r\n\r\n") depois
    ∙ sym (append_assoc s (13 ∷ []) (10 ∷ ((13 ∷ []) ++ (10 ∷ depois))))

resposta_do_aperto_linhas :
    (assinar : Texto → Texto) (chave depois : Texto)
    → resposta_do_aperto assinar chave ++ depois
      ≡ codes "HTTP/1.1 101 Switching Protocols\r"
        ++ (10 ∷ linhas_do_servidor (assinar (chave ++ guid_websocket)) depois)
unfolding resposta_do_aperto
resposta_do_aperto_linhas assinar chave depois =
    ap
      (λ (t : Texto).
        codes
          "HTTP/1.1 101 Switching Protocols\r\nUpgrade: websocket\r\nConnection: Upgrade\r\nSec-WebSocket-Accept: "
        ++ t)
      (aceite-aninhado (assinar (chave ++ guid_websocket)) depois)

pular_cabecalhos_servidor :
    (n : ℕ) (r : Rede) (assinatura depois : Texto)
    → sem_fim_de_linha assinatura ≡ true
    → pular_cabecalhos
        (suc (suc (suc (suc n))))
        (record r { entrada = linhas_do_servidor assinatura depois })
      ≡ ok (record r { entrada = depois })
unfolding is_space trim_space trim_left trim_right
pular_cabecalhos_servidor n r assinatura depois e =
    pular_cabecalhos_linha (suc (suc (suc n))) r (codes "Upgrade: websocket\r")
      (codes "Connection: Upgrade\r"
        ++ (10 ∷ (linha_aceite assinatura ++ (10 ∷ ((13 ∷ []) ++ (10 ∷ depois))))))
      refl refl
    ∙ pular_cabecalhos_linha (suc (suc n)) r (codes "Connection: Upgrade\r")
        (linha_aceite assinatura ++ (10 ∷ ((13 ∷ []) ++ (10 ∷ depois)))) refl refl
    ∙ pular_cabecalhos_linha (suc n) r (linha_aceite assinatura) ((13 ∷ []) ++ (10 ∷ depois))
        (sem_fim_de_linha-append (codes "Sec-WebSocket-Accept: ") (assinatura ++ (13 ∷ [])) refl
          (sem_fim_de_linha-append assinatura (13 ∷ []) e refl))
        (trim_space-vazio b'S'
          (codes "ec-WebSocket-Accept: " ++ ((assinatura ++ (13 ∷ [])) ++ (10 ∷ []))) refl)
    ∙ pular_cabecalhos_fim n r (13 ∷ []) depois refl refl

-- The socket of the client behind the request.
abbrev pub com_pedido : Texto → List ℕ → Rede → Rede
com_pedido endereco bruto r =
    let pedido = pedido_de_aperto endereco (base64 bruto) in
    record r { enviado = r.enviado ++ pedido; capacidade = r.capacidade - length pedido }

depois_do_status_servidor :
    (r : Rede) (assinatura depois : Texto)
    → sem_fim_de_linha assinatura ≡ true
    → depois_do_status
        (codes "HTTP/1.1 101 Switching Protocols\r\n")
        (record r { entrada = linhas_do_servidor assinatura depois })
      ≡ conectado (record r { entrada = depois })
unfolding depois_do_status contem_texto has_prefix
depois_do_status_servidor r assinatura depois e =
    ap
      (λ (o : Resultado Rede). elim o as (λ _. Conexao) [
        | err f ↦ falhou (da_rede f)
        | ok r' ↦ conectado r'
      ])
      (pular_cabecalhos_servidor (length (drop 3 (linhas_do_servidor assinatura depois))) r
        assinatura depois e)

escrever_tudo_cabe :
    (dados : List ℕ) (r : Rede)
    → length dados ≤ r.capacidade
    → escrever_tudo dados r
      ≡ ok (record r { enviado = r.enviado ++ dados; capacidade = r.capacidade - length dados })
unfolding escrever_tudo
escrever_tudo_cabe dados r c =
    let cabe : leb (length dados) r.capacidade ≡ true = ground (arith, c) in rw cabe refl

conectar_passos :
    (endereco : Texto) (bruto : List ℕ) (r r1 r2 : Rede) (status : Texto)
    → escrever_tudo (pedido_de_aperto endereco (base64 bruto)) r ≡ ok r1
    → ler_linha_da_rede r1 ≡ ok (status, r2)
    → conectar endereco bruto (ok r) ≡ depois_do_status status r2
unfolding conectar
conectar_passos endereco bruto r r1 r2 status e f = rw (e, f, conectar) refl

conectar_servidor :
    (endereco : Texto) (bruto : List ℕ) (r : Rede) (assinar : Texto → Texto) (depois : Texto)
    → r.entrada ≡ resposta_do_aperto assinar (base64 bruto) ++ depois
    → sem_fim_de_linha (assinar (base64 bruto ++ guid_websocket)) ≡ true
    → length (pedido_de_aperto endereco (base64 bruto)) ≤ r.capacidade
    → conectar endereco bruto (ok r)
      ≡ conectado (record (com_pedido endereco bruto r) { entrada = depois })
conectar_servidor endereco bruto r assinar depois e s c =
    let r1 = com_pedido endereco bruto r in
    let linhas = linhas_do_servidor (assinar (base64 bruto ++ guid_websocket)) depois in
    conectar_passos endereco bruto r r1 (record r1 { entrada = linhas })
      (codes "HTTP/1.1 101 Switching Protocols\r\n")
      (escrever_tudo_cabe (pedido_de_aperto endereco (base64 bruto)) r c)
      (ap (λ (t : Texto). ler_linha_da_rede (record r1 { entrada = t }))
          (e ∙ resposta_do_aperto_linhas assinar (base64 bruto) depois)
        ∙ ler_linha_da_rede_lem r1 (codes "HTTP/1.1 101 Switching Protocols\r") linhas refl)
    ∙ depois_do_status_servidor r1 (assinar (base64 bruto ++ guid_websocket)) depois s

abbrev enviado_de : Resultado Rede → List ℕ
enviado_de (ok r) = r.enviado
enviado_de (err e) = []

-- When the server accepts the connection for the key that the meter sends, and its signature holds no
-- line feed, a meter that dialled, whose request goes out and who reads what the server sent on that
-- connection and then `depois`, is connected, having written its request and nothing else, and what it
-- reads next is exactly `depois`.
pub conectar-aceitar_websocket :
    (endereco : Texto) (bruto : List ℕ) (r : Rede) (assinar : Texto → Texto) (p : Pedido)
    (rs : Rede) (c : Conn) (depois : Texto)
    → p.chave ≡ base64 bruto
    → rs.enviado ≡ []
    → (aceitar_websocket assinar p (ok rs)).0 ≡ ok c
    → sem_fim_de_linha (assinar (base64 bruto ++ guid_websocket)) ≡ true
    → length (pedido_de_aperto endereco (base64 bruto)) ≤ r.capacidade
    → r.entrada ≡ c.rede.enviado ++ depois
    → conectar endereco bruto (ok r)
      ≡ conectado (record (com_pedido endereco bruto r) { entrada = depois })
conectar-aceitar_websocket endereco bruto r assinar p rs c depois k z a s l e =
    let (_, _, _, (r0, igual, enviado, _, _, _)) =
      aceitar_websocket-Aceitou assinar p (ok rs) c a in
    let inicio : r0.enviado ≡ [] = sym (ap enviado_de igual) ∙ z in
    conectar_servidor endereco bruto r assinar depois
      (e
        ∙ ap (λ (t : List ℕ). t ++ depois)
            (enviado
              ∙ ap (λ (t : List ℕ). t ++ resposta_do_aperto assinar p.chave) inicio
              ∙ ap (resposta_do_aperto assinar) k))
      s l
