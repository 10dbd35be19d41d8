-- ===== src/Tunel/Exemplos.antt =====
-- src/tunel.go and src/cloudflared.go on small inputs.
use greenlabs_server.Comum.{
  ℕ, ◌≡◌, refl, Bool, true, false, Option, none, some, List, [], ◌∷◌, ◌++◌,
}
use greenlabs_server.Comum.Texto.{Texto, codes}
use greenlabs_server.Tunel.{Interface, eh_cloudflared, padrao_do_tunel, procurar}
use greenlabs_server.Tunel.Anuncio.{procurar-endereco, copia-IsCloudflared}
use greenlabs_server.Tunel.Copia.{
  Sistema, Maquina, Resposta, Download, eh_windows, caminho_do_cloudflared, baixar_cloudflared,
}
use greenlabs_server.Tunel.Copia.Inteira.{IsInteira, baixar_cloudflared-IsInteira}
use greenlabs_server.Tunel.Padroes.{find_string, casar_cloudflare, casar_ngrok, em_wss}
use greenlabs_server.Tunel.Padroes.Achado.{endereco_cloudflare}

abbrev linux_arm64 : Sistema
linux_arm64 = record { os = codes "linux"; arch = codes "arm64" }

abbrev linux : Maquina
linux = record { sistema = linux_arm64; pasta_de_cache = some (codes "/c"); cria_pasta = true }

abbrev corpo : List (List ℕ)
corpo = (1 ∷ 2 ∷ []) ∷ (3 ∷ []) ∷ []

abbrev resposta : Resposta
resposta = record { codigo_ok = true; pedacos = corpo; inteira = true }

abbrev baixado : Download
baixado = record {
  resposta = some resposta;
  abre = true;
  escritas = 2;
  fecha = true;
  renomeia = true;
  remove = true;
}

-- A letter of the scheme in upper case: the expression takes it, the prefix "https" is not cut.
esquema_maiusculo :
    em_wss (find_string casar_cloudflare (codes "| HTTPS://a.trycloudflare.com"))
    ≡ codes "wssHTTPS://a.trycloudflare.com"
unfolding em_wss greenlabs_server.Comum.Texto.trim_prefix find_string casar_cloudflare
esquema_maiusculo = refl

find_string_ngrok :
    find_string casar_ngrok (codes "url=https://ab-1.ngrok-free.app addr=x")
    ≡ codes "https://ab-1.ngrok-free.app"
unfolding find_string casar_ngrok
find_string_ngrok = refl

procurar-endereco_example :
    procurar (padrao_do_tunel true (codes "C:\\b\\Cloudflared.exe")) none (
      (codes "INF https://developers.cloudflare.com" ∷ [])
      ++ ((codes "|  " ++ (endereco_cloudflare (codes "ab-9") ++ codes "  |"))
          ∷ codes "https://z.trycloudflare.com"
          ∷ []))
    ≡ some (codes "wss://" ++ (codes "ab-9" ++ codes ".trycloudflare.com"))
unfolding eh_cloudflared greenlabs_server.Comum.Texto.has_prefix
    greenlabs_server.Comum.Texto.to_lower find_string casar_cloudflare
procurar-endereco_example =
    procurar-endereco true (codes "C:\\b\\Cloudflared.exe")
      (codes "INF https://developers.cloudflare.com" ∷ [])
      (codes "https://z.trycloudflare.com" ∷ []) (codes "|  ") (codes "ab-9") (codes "  |") refl
      refl refl refl refl

copia-IsCloudflared_example :
    eh_cloudflared (eh_windows linux.sistema) (codes "/c/greenlabs/cloudflared") ≡ true
unfolding caminho_do_cloudflared eh_windows greenlabs_server.Comum.Texto.eq_texto
copia-IsCloudflared_example = copia-IsCloudflared linux (codes "/c/greenlabs/cloudflared") refl

baixar_cloudflared-IsInteira_example :
    IsInteira baixado (codes "/c/greenlabs/cloudflared") [] (baixar_cloudflared linux baixado [])
unfolding caminho_do_cloudflared eh_windows greenlabs_server.Comum.Texto.eq_texto
baixar_cloudflared-IsInteira_example =
    baixar_cloudflared-IsInteira linux baixado [] (codes "/c/greenlabs/cloudflared") refl

abbrev eth0 : Interface
eth0 = record {
  nome = codes "eth0";
  ligada = true;
  loopback = false;
  enderecos = some ((some (codes "10.0.0.2"), false) ∷ (some (codes "26.1.1.1"), false) ∷ []);
}
