-- ===== src/Sfu/Mensagens.antt =====
-- src/sfu.go, mensagemDeDescricao and mensagemDeCandidato, with the names of the copies of tracks.
-- json.Marshal of a map writes its keys in order.
use greenlabs_server.Comum.{ℕ, none, some, List, [], ◌++◌, ltb, if◌then◌else◌, length, take}
use greenlabs_server.Comum.Texto.{Texto, codes, vazio}
use greenlabs_server.Hub.Formato.{texto_json, itoa}
use greenlabs_server.Sfu.{Candidato, Origem}

unfoldable pub curto : Texto → Texto
curto id = if ltb 8 (length id) then take 8 id else id

unfoldable pub id_da_faixa : Texto → Origem → Texto
unfolding curto
id_da_faixa dono o =
    codes "greenlabs-"
    ++ (curto dono
        ++ (codes "-"
            ++ (if vazio o.id then (if o.video then codes "video" else codes "audio") else o.id)))

unfoldable pub id_do_fluxo : Texto → Origem → Texto
unfolding curto
id_do_fluxo dono o = if vazio o.fluxo then codes "greenlabs-" ++ curto dono else o.fluxo

unfoldable pub corpo_da_descricao : Texto → Texto → List ℕ
corpo_da_descricao tipo sdp =
    codes "{\"sdp\":" ++ (texto_json sdp ++ (codes ",\"type\":" ++ (texto_json tipo ++ codes "}")))

unfoldable pub mensagem_de_descricao : Texto → Texto → List ℕ
unfolding corpo_da_descricao
mensagem_de_descricao tipo sdp =
    codes "{\"description\":"
    ++ (corpo_da_descricao tipo sdp
        ++ (codes ",\"sdp\":"
            ++ (corpo_da_descricao tipo sdp
                ++ (codes ",\"type\":" ++ (texto_json tipo ++ codes "}")))))

unfoldable pub mensagem_de_candidato : Candidato → List ℕ
mensagem_de_candidato c =
    let mid : Texto = elim c.mid [ none ↦ [] | some m ↦ m ] in
    let indice : ℕ = elim c.indice [ none ↦ 0 | some i ↦ i ] in
    codes "{\"candidate\":{\"candidate\":"
    ++ (texto_json c.candidato
        ++ (codes ",\"sdpMLineIndex\":"
            ++ (itoa indice
                ++ (codes ",\"sdpMid\":" ++ (texto_json mid ++ codes "},\"type\":\"ice\"}")))))
