-- ===== src/Tunel.antt =====
-- src/tunel.go, src/cloudflared.go and the part of src/main.go that opens the public tunnel.
-- exec.LookPath and the network interfaces are arguments. Starting the program and reading its output
-- by lines are left out: the lines come as a list, of both of its streams in the order of arrival.
pub mod Anuncio
pub mod Copia
pub mod Enderecos
mod Exemplos
pub mod Padroes
use greenlabs_server.Comum.{
  ℕ, ◌+◌, Bool, true, false, not, ◌&&◌, ◌||◌, Option, none, some, List, [], ◌∷◌, ◌++◌, ◌==◌,
  if◌then◌else◌,
}
use greenlabs_server.Comum.Texto.{Texto, codes, eq_texto, vazio, has_prefix, trim_space, to_lower}
use greenlabs_server.Hub.Formato.{itoa}
use greenlabs_server.Tunel.Copia.{
  Sistema, Maquina, Download, Arquivos, eh_windows, arquivo_do_cloudflared, cloudflared_baixado,
  Baixada, baixar_cloudflared,
}
use greenlabs_server.Tunel.Padroes.{find_string, casar_cloudflare, casar_ngrok, em_wss}

unfoldable pub eh_faixa_vpn : Texto → Bool
eh_faixa_vpn ip = has_prefix ip (codes "26.") || has_prefix ip (codes "25.")

pub record EnderecoLocal : Type 0 where
  pub interface : Texto
  pub ip : Texto
  pub vpn : Bool

-- An address of an interface that is up: IPv4 (the text that To4 gives), and whether it is loopback.
pub record Interface : Type 0 where
  pub nome : Texto
  pub ligada : Bool
  pub loopback : Bool
  pub enderecos : Option (List (Option Texto × Bool))

unfoldable pub da_interface : Texto → List (Option Texto × Bool) → List EnderecoLocal
unfolding eh_faixa_vpn
da_interface nome [] = []
da_interface nome ((none, l) ∷ as') = da_interface nome as'
da_interface nome ((some ip, l) ∷ as') =
    let resto = da_interface nome as' in
    if l then resto else record { interface = nome; ip = ip; vpn = eh_faixa_vpn ip } ∷ resto

unfoldable pub achados : List Interface → List EnderecoLocal
unfolding da_interface
achados [] = []
achados (i ∷ resto_i) =
    let resto = achados resto_i in
    if not i.ligada || i.loopback
    then resto
    else elim i.enderecos [ none ↦ resto | some as' ↦ da_interface i.nome as' ++ resto ]

-- sort.SliceStable with this order: an entry goes in front of those that it is not behind.
unfoldable pub inserir_estavel : EnderecoLocal → List EnderecoLocal → List EnderecoLocal
inserir_estavel a [] = a ∷ []
inserir_estavel a (b ∷ bs) =
    let resto = inserir_estavel a bs in if b.vpn && not a.vpn then b ∷ resto else a ∷ b ∷ bs

unfoldable pub ordenar : List EnderecoLocal → List EnderecoLocal
unfolding inserir_estavel
ordenar [] = []
ordenar (a ∷ as') = inserir_estavel a (ordenar as')

unfoldable pub enderecos_locais : Option (List Interface) → List EnderecoLocal
unfolding achados ordenar
enderecos_locais none = []
enderecos_locais (some interfaces) = ordenar (achados interfaces)

-- `baixado` is what CloudflaredBaixado gives.
unfoldable pub resolver_provedor : (Texto → Bool) → Texto → Texto → Texto
resolver_provedor existe baixado pedido =
    let minusculo = to_lower (trim_space pedido) in
    let desejado =
      if eq_texto minusculo (codes "cloudflare") then codes "cloudflared" else minusculo in
    if not (vazio desejado) && not (eq_texto desejado (codes "auto"))
    then (if existe desejado then desejado else [])
    else if existe (codes "cloudflared")
    then codes "cloudflared"
    else if existe (codes "ngrok")
    then codes "ngrok"
    else baixado

-- os.IsPathSeparator.
unfoldable pub separa : Bool → ℕ → Bool
separa windows c = (c == b'/') || (windows && (c == 92))

unfoldable pub tem_separador : Bool → Texto → Bool
unfolding separa
tem_separador windows [] = false
tem_separador windows (c ∷ cs) = separa windows c || tem_separador windows cs

-- filepath.Base of a path that is not empty and does not end in a separator; the name of a Windows
-- volume is not looked at.
unfoldable pub base_do_caminho : Bool → Texto → Texto
unfolding tem_separador
base_do_caminho windows [] = []
base_do_caminho windows (c ∷ cs) =
    let resto = base_do_caminho windows cs in
    if tem_separador windows cs then resto else if separa windows c then cs else c ∷ cs

unfoldable pub eh_cloudflared : Bool → Texto → Bool
unfolding base_do_caminho
eh_cloudflared windows provedor =
    has_prefix (to_lower (base_do_caminho windows provedor)) (codes "cloudflared")

unfoldable pub argumentos_do_tunel : Bool → Texto → ℕ → List Texto
unfolding eh_cloudflared
argumentos_do_tunel windows provedor porta =
    if eh_cloudflared windows provedor
    then codes "tunnel" ∷ codes "--url" ∷ (codes "http://localhost:" ++ itoa porta) ∷ []
    else codes "http" ∷ itoa porta ∷ codes "--log" ∷ codes "stdout" ∷ []

unfoldable pub padrao_do_tunel : Bool → Texto → (Texto → Option Texto)
unfolding eh_cloudflared casar_cloudflare casar_ngrok
padrao_do_tunel windows provedor =
    if eh_cloudflared windows provedor then casar_cloudflare else casar_ngrok

-- One line of the program's output; the second argument is what `umaVez` has passed on already.
unfoldable pub procurar_linha : (Texto → Option Texto) → Option Texto → Texto → Option Texto
unfolding find_string em_wss
procurar_linha casar (some url) linha = some url
procurar_linha casar none linha =
    let achado = find_string casar linha in if vazio achado then none else some (em_wss achado)

unfoldable pub procurar : (Texto → Option Texto) → Option Texto → List Texto → Option Texto
unfolding procurar_linha
procurar casar url [] = url
procurar casar url (l ∷ ls) = procurar casar (procurar_linha casar url l) ls

-- The provider that main settles on, with the files behind the download that it may make.
unfoldable pub escolher_provedor :
    (Texto → Bool) → Maquina → Download → Texto → Arquivos → Arquivos × Texto
unfolding resolver_provedor
escolher_provedor existe m d pedido fs =
    let provedor = resolver_provedor existe (cloudflared_baixado m fs) pedido in
    if vazio provedor && not (vazio (arquivo_do_cloudflared m.sistema))
    then (let b = baixar_cloudflared m d fs in
        (b.final, elim b.caminho [ none ↦ provedor | some caminho ↦ caminho ]))
    else (fs, provedor)
