-- ===== src/RegistriesConf.antt =====
-- pkg/registriesconf: the docker client configuration and the one of makisu. Marshalling is a
-- parameter; base64 is that of Go/Base64.antt.
pub mod Docker
pub mod Makisu
