-- ===== src/Mac/Inventory/Registry.antt =====
-- crates/platform-mac/src/inventory.rs: the browsers that the program knows.
use link_pilot.Prelude.{String, List, [], ◌∷◌}
use link_pilot.Core.Browser.{BrowserKind}
use link_pilot.Core.Files.{FilePath}

-- The roots of the profiles are relative paths.
pub record KnownBrowser : Type 0 where
  pub id : String
  pub display_name : String
  pub kind : BrowserKind
  pub bundle_id : String
  pub app_dir_names : List String
  pub binary : String
  pub profile_roots_rel : List FilePath

abbrev known :
    String → String → BrowserKind → String → List String → String → List FilePath → KnownBrowser
known id display_name kind bundle_id app_dir_names binary profile_roots_rel = record {
  id = id;
  display_name = display_name;
  kind = kind;
  bundle_id = bundle_id;
  app_dir_names = app_dir_names;
  binary = binary;
  profile_roots_rel = profile_roots_rel;
}

unfoldable pub registry : List KnownBrowser
registry =
    known "chrome" "Google Chrome" BrowserKind.chromium "com.google.Chrome"
      ("Google Chrome.app" ∷ []) "Google Chrome" (("Chrome" ∷ "Google" ∷ []) ∷ [])
    ∷ known "edge" "Microsoft Edge" BrowserKind.chromium "com.microsoft.edgemac"
        ("Microsoft Edge.app" ∷ []) "Microsoft Edge" (("Microsoft Edge" ∷ []) ∷ [])
    ∷ known "brave" "Brave Browser" BrowserKind.chromium "com.brave.Browser"
        ("Brave Browser.app" ∷ []) "Brave Browser" (("Brave-Browser" ∷ "BraveSoftware" ∷ []) ∷ [])
    ∷ known "vivaldi" "Vivaldi" BrowserKind.chromium "com.vivaldi.Vivaldi" ("Vivaldi.app" ∷ [])
        "Vivaldi" (("Vivaldi" ∷ []) ∷ [])
    ∷ known "opera" "Opera" BrowserKind.chromium "com.operasoftware.Opera" ("Opera.app" ∷ [])
        "Opera" (("com.operasoftware.Opera" ∷ []) ∷ ("Opera" ∷ []) ∷ [])
    ∷ known "opera-gx" "Opera GX" BrowserKind.chromium "com.operasoftware.OperaGX"
        ("Opera GX.app" ∷ []) "Opera GX"
        (("com.operasoftware.OperaGX" ∷ []) ∷ ("Opera GX" ∷ []) ∷ [])
    ∷ known "dia" "Dia" BrowserKind.chromium "company.thebrowser.dia" ("Dia.app" ∷ []) "Dia"
        (("User Data" ∷ "Dia" ∷ []) ∷ [])
    ∷ known "atlas" "ChatGPT Atlas" BrowserKind.chromium "com.openai.atlas"
        ("ChatGPT Atlas.app" ∷ "Atlas.app" ∷ []) "ChatGPT Atlas"
        (("host" ∷ "browser-data" ∷ "com.openai.atlas" ∷ []) ∷ [])
    ∷ known "comet" "Comet" BrowserKind.chromium "ai.perplexity.comet"
        ("Comet.app" ∷ "Perplexity Comet.app" ∷ []) "Comet"
        (("Comet" ∷ []) ∷ ("Comet" ∷ "Perplexity" ∷ []) ∷ ("com.perplexity.comet" ∷ []) ∷ [])
    ∷ known "arc" "Arc" BrowserKind.arc "company.thebrowser.Browser" ("Arc.app" ∷ []) "Arc"
        (("User Data" ∷ "Arc" ∷ []) ∷ [])
    ∷ known "firefox" "Firefox" BrowserKind.firefox "org.mozilla.firefox" ("Firefox.app" ∷ [])
        "firefox" (("Firefox" ∷ []) ∷ [])
    ∷ known "zen" "Zen Browser" BrowserKind.firefox "app.zen-browser.zen"
        ("Zen Browser.app" ∷ "Zen.app" ∷ []) "zen" (("zen" ∷ []) ∷ ("Zen" ∷ []) ∷ [])
    ∷ known "librewolf" "LibreWolf" BrowserKind.firefox "io.gitlab.librewolf-community"
        ("LibreWolf.app" ∷ []) "librewolf" (("LibreWolf" ∷ []) ∷ [])
    ∷ known "waterfox" "Waterfox" BrowserKind.firefox "net.waterfox.waterfox" ("Waterfox.app" ∷ [])
        "waterfox" (("Waterfox" ∷ []) ∷ [])
    ∷ known "floorp" "Floorp" BrowserKind.firefox "one.ablaze.floorp" ("Floorp.app" ∷ []) "floorp"
        (("Floorp" ∷ []) ∷ [])
    ∷ known "mullvad-browser" "Mullvad Browser" BrowserKind.firefox "net.mullvad.mullvadbrowser"
        ("Mullvad Browser.app" ∷ []) "mullvadbrowser"
        (("Browser" ∷ "MullvadBrowser-Data" ∷ []) ∷ ("Mullvad Browser" ∷ []) ∷ [])
    ∷ known "tor-browser" "Tor Browser" BrowserKind.firefox "org.torproject.torbrowser"
        ("Tor Browser.app" ∷ []) "firefox" (("Browser" ∷ "TorBrowser-Data" ∷ []) ∷ [])
    ∷ known "safari" "Safari" BrowserKind.safari "com.apple.Safari" ("Safari.app" ∷ []) "Safari"
        ([])
    ∷ known "orion" "Orion" BrowserKind.unknown "com.kagi.kagimacOS" ("Orion.app" ∷ []) "Orion" ([])
    ∷ known "duckduckgo" "DuckDuckGo" BrowserKind.unknown "com.duckduckgo.macos.browser"
        ("DuckDuckGo.app" ∷ "DuckDuckGo Browser.app" ∷ []) "DuckDuckGo" ([])
    ∷ known "yandex" "Yandex Browser" BrowserKind.chromium "ru.yandex.desktop.yandex-browser"
        ("Yandex.app" ∷ "Yandex Browser.app" ∷ []) "Yandex"
        (("YandexBrowser" ∷ "Yandex" ∷ []) ∷ ("Yandex Browser" ∷ []) ∷ [])
    ∷ known "whale" "Naver Whale" BrowserKind.chromium "com.naver.Whale"
        ("Whale.app" ∷ "Naver Whale.app" ∷ []) "Whale"
        (("Whale" ∷ "Naver" ∷ []) ∷ ("Whale" ∷ []) ∷ [])
    ∷ known "safari-technology-preview" "Safari Technology Preview" BrowserKind.safari
        "com.apple.SafariTechnologyPreview" ("Safari Technology Preview.app" ∷ [])
        "Safari Technology Preview" ([])
    ∷ known "chrome-beta" "Google Chrome Beta" BrowserKind.chromium "com.google.Chrome.beta"
        ("Google Chrome Beta.app" ∷ []) "Google Chrome Beta" (("Chrome Beta" ∷ "Google" ∷ []) ∷ [])
    ∷ known "chrome-dev" "Google Chrome Dev" BrowserKind.chromium "com.google.Chrome.dev"
        ("Google Chrome Dev.app" ∷ []) "Google Chrome Dev" (("Chrome Dev" ∷ "Google" ∷ []) ∷ [])
    ∷ known "chrome-canary" "Google Chrome Canary" BrowserKind.chromium "com.google.Chrome.canary"
        ("Google Chrome Canary.app" ∷ []) "Google Chrome Canary"
        (("Chrome Canary" ∷ "Google" ∷ []) ∷ [])
    ∷ known "edge-beta" "Microsoft Edge Beta" BrowserKind.chromium "com.microsoft.edgemac.Beta"
        ("Microsoft Edge Beta.app" ∷ []) "Microsoft Edge Beta" (("Microsoft Edge Beta" ∷ []) ∷ [])
    ∷ known "edge-dev" "Microsoft Edge Dev" BrowserKind.chromium "com.microsoft.edgemac.Dev"
        ("Microsoft Edge Dev.app" ∷ []) "Microsoft Edge Dev" (("Microsoft Edge Dev" ∷ []) ∷ [])
    ∷ known "edge-canary" "Microsoft Edge Canary" BrowserKind.chromium
        "com.microsoft.edgemac.Canary" ("Microsoft Edge Canary.app" ∷ []) "Microsoft Edge Canary"
        (("Microsoft Edge Canary" ∷ []) ∷ [])
    ∷ known "brave-beta" "Brave Browser Beta" BrowserKind.chromium "com.brave.Browser.beta"
        ("Brave Browser Beta.app" ∷ []) "Brave Browser Beta"
        (("Brave-Browser-Beta" ∷ "BraveSoftware" ∷ []) ∷ [])
    ∷ known "brave-nightly" "Brave Browser Nightly" BrowserKind.chromium "com.brave.Browser.nightly"
        ("Brave Browser Nightly.app" ∷ []) "Brave Browser Nightly"
        (("Brave-Browser-Nightly" ∷ "BraveSoftware" ∷ []) ∷ [])
    ∷ known "firefox-developer-edition" "Firefox Developer Edition" BrowserKind.firefox
        "org.mozilla.firefoxdeveloperedition" ("Firefox Developer Edition.app" ∷ []) "firefox"
        (("Firefox" ∷ []) ∷ [])
    ∷ known "firefox-nightly" "Firefox Nightly" BrowserKind.firefox "org.mozilla.nightly"
        ("Firefox Nightly.app" ∷ []) "firefox" (("Firefox" ∷ []) ∷ [])
    ∷ known "sigmaos" "SigmaOS" BrowserKind.chromium "app.sigmaos.SigmaOS" ("SigmaOS.app" ∷ [])
        "SigmaOS" (("SigmaOS" ∷ []) ∷ [])
    ∷ known "sidekick" "Sidekick" BrowserKind.chromium "com.pushplaylabs.sidekick"
        ("Sidekick.app" ∷ []) "Sidekick" (("Sidekick" ∷ []) ∷ [])
    ∷ known "wavebox" "Wavebox" BrowserKind.chromium "io.wavebox.WaveboxApp" ("Wavebox.app" ∷ [])
        "Wavebox" (("WaveboxApp" ∷ []) ∷ ("Wavebox" ∷ []) ∷ [])
    ∷ known "stack" "Stack" BrowserKind.chromium "com.getstack.Stack" ("Stack.app" ∷ []) "Stack"
        (("Stack" ∷ []) ∷ [])
    ∷ known "min" "Min" BrowserKind.chromium "com.electron.min" ("Min.app" ∷ []) "Min" ([])
    ∷ known "ulaa" "Ulaa" BrowserKind.chromium "com.zohocorp.Ulaa" ("Ulaa.app" ∷ []) "Ulaa"
        (("Ulaa" ∷ []) ∷ ("User Data" ∷ "Ulaa" ∷ []) ∷ [])
    ∷ known "beam" "Beam" BrowserKind.chromium "co.beamapp.macos" ("Beam.app" ∷ []) "Beam" ([])
    ∷ []
