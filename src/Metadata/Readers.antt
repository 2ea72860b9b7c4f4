-- ===== src/Metadata/Readers.antt =====
-- What an upgrade of the protocol asks of readers.
use deltaswamp.Prelude.{String, true, ◌≡◌}
use deltaswamp.Metadata.Protocol.{Protocol, needs_reader, reader_features_of, supported_features}
use deltaswamp.Prelude.Text.{mem}

-- The features that readers must know are supported for writers, and are features of both.
abbrev pub IsReadable : Protocol → Type 0
IsReadable p =
    (n : String)
    → mem n (reader_features_of p) ≡ true
    → (mem n (supported_features p) ≡ true) × (needs_reader n ≡ true)
