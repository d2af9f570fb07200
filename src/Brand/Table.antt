-- ===== src/Brand/Table.antt =====
-- `kBrandTable` of src/analysis/brand_cert.cpp.
use Prim.Native.String.{String}
use bye_bye_vpn.Common.{List, [], ◌∷◌, Bytes, text}

pub record BrandMarker : Type 0 where
  pub brand : Bytes
  pub asn_markers : Bytes

marker : String → String → BrandMarker
marker brand markers = record { brand = text brand; asn_markers = text markers }

unfoldable pub brand_table : List BrandMarker
unfolding marker
brand_table =
    marker "amazon.com" "amazon,aws,a100 row,amazon technologies"
    ∷ marker "aws.amazon.com" "amazon,aws"
    ∷ marker "microsoft.com" "microsoft,msn,msft,akamai,edgecast"
    ∷ marker "apple.com" "apple,akamai"
    ∷ marker "icloud.com" "apple"
    ∷ marker "google.com" "google,gts,gcp,youtube"
    ∷ marker "googleusercontent.com" "google,gcp"
    ∷ marker "googleapis.com" "google,gcp"
    ∷ marker "youtube.com" "google,youtube"
    ∷ marker "cloudflare.com" "cloudflare,cloudflare inc"
    ∷ marker "github.com" "github,microsoft,fastly"
    ∷ marker "gitlab.com" "gitlab,cloudflare"
    ∷ marker "bitbucket.org" "atlassian,amazon"
    ∷ marker "yahoo.com" "yahoo,oath,verizon"
    ∷ marker "netflix.com" "netflix,akamai"
    ∷ marker "cdn.jsdelivr.net" "fastly,cloudflare"
    ∷ marker "bing.com" "microsoft"
    ∷ marker "gstatic.com" "google"
    ∷ marker "wikipedia.org" "wikimedia"
    ∷ marker "wikimedia.org" "wikimedia"
    ∷ marker "linkedin.com" "linkedin,microsoft"
    ∷ marker "office.com" "microsoft"
    ∷ marker "office365.com" "microsoft"
    ∷ marker "outlook.com" "microsoft"
    ∷ marker "live.com" "microsoft"
    ∷ marker "azure.com" "microsoft"
    ∷ marker "onedrive.com" "microsoft"
    ∷ marker "facebook.com" "facebook,meta"
    ∷ marker "instagram.com" "facebook,meta"
    ∷ marker "whatsapp.com" "facebook,meta"
    ∷ marker "whatsapp.net" "facebook,meta"
    ∷ marker "messenger.com" "facebook,meta"
    ∷ marker "threads.net" "facebook,meta"
    ∷ marker "twitter.com" "twitter,x corp,x holdings"
    ∷ marker "x.com" "twitter,x corp,x holdings"
    ∷ marker "tiktok.com" "tiktok,bytedance,akamai"
    ∷ marker "telegram.org" "telegram,telegram messenger"
    ∷ marker "t.me" "telegram,telegram messenger"
    ∷ marker "telegram.me" "telegram,telegram messenger"
    ∷ marker "discord.com" "discord,cloudflare,google"
    ∷ marker "discordapp.com" "discord,cloudflare,google"
    ∷ marker "slack.com" "slack,amazon,aws"
    ∷ marker "zoom.us" "zoom"
    ∷ marker "signal.org" "signal,amazon,aws"
    ∷ marker "yandex.ru" "yandex"
    ∷ marker "yandex.net" "yandex"
    ∷ marker "yandex.com" "yandex"
    ∷ marker "ya.ru" "yandex"
    ∷ marker "mail.ru" "mail.ru,vk,v kontakte"
    ∷ marker "vk.com" "vk,v kontakte,mail.ru"
    ∷ marker "vk.ru" "vk,v kontakte,mail.ru"
    ∷ marker "vkontakte.ru" "vk,v kontakte,mail.ru"
    ∷ marker "ok.ru" "vk,v kontakte,mail.ru"
    ∷ marker "avito.ru" "avito,kiev internet"
    ∷ marker "ozon.ru" "ozon"
    ∷ marker "wildberries.ru" "wildberries"
    ∷ marker "kinopoisk.ru" "yandex"
    ∷ marker "rutube.ru" "rutube,rbc,gpmd"
    ∷ marker "dzen.ru" "yandex,vk"
    ∷ marker "habr.com" "habr,habrahabr"
    ∷ marker "rambler.ru" "rambler,rambler internet"
    ∷ marker "sberbank.ru" "sberbank,sber"
    ∷ marker "sber.ru" "sberbank,sber"
    ∷ marker "sberbank.com" "sberbank,sber"
    ∷ marker "tinkoff.ru" "tinkoff,t-bank,tcs"
    ∷ marker "tbank.ru" "tinkoff,t-bank,tcs"
    ∷ marker "vtb.ru" "vtb,vtb bank"
    ∷ marker "alfabank.ru" "alfabank,alfa bank"
    ∷ marker "gazprombank.ru" "gazprombank,gazprom"
    ∷ marker "rosbank.ru" "rosbank,societe"
    ∷ marker "gosuslugi.ru" "rostelecom,rt,rt-labs"
    ∷ marker "mos.ru" "dit,moscow,mgts"
    ∷ marker "rt.ru" "rostelecom,rt"
    ∷ marker "nalog.gov.ru" "rostelecom,rt"
    ∷ marker "mts.ru" "mts"
    ∷ marker "megafon.ru" "megafon"
    ∷ marker "beeline.ru" "beeline,vimpelcom,pjsc vimpelcom"
    ∷ marker "rostelecom.ru" "rostelecom,rt"
    ∷ marker "tele2.ru" "tele2,rostelecom"
    ∷ marker "stripe.com" "stripe,amazon,aws"
    ∷ marker "paypal.com" "paypal,akamai"
    ∷ marker "shopify.com" "shopify,fastly,cloudflare"
    ∷ marker "adobe.com" "adobe"
    ∷ marker "salesforce.com" "salesforce"
    ∷ marker "dropbox.com" "dropbox,amazon,aws"
    ∷ marker "spotify.com" "spotify,amazon,aws"
    ∷ marker "twitch.tv" "twitch,amazon,aws"
    ∷ marker "vimeo.com" "vimeo,akamai,amazon"
    ∷ marker "reddit.com" "reddit,fastly"
    ∷ marker "steampowered.com" "valve,akamai"
    ∷ marker "steamcommunity.com" "valve,akamai"
    ∷ marker "playstation.com" "sony,akamai"
    ∷ marker "xbox.com" "microsoft"
    ∷ marker "nintendo.com" "nintendo,amazon,aws,akamai"
    ∷ marker "epicgames.com" "epic games,cloudflare,amazon"
    ∷ marker "battle.net" "blizzard,akamai"
    ∷ []
