-- ===== src/Parsers.antt =====
-- The payload parsers: src/rdi_parser.cpp, src/shi_parser.cpp and src/spi_parser.cpp, with the
-- structures of include/afi920_driver/interface.
pub mod Iso
pub mod At
pub mod Section
pub mod Elements
pub mod SpiTypes
pub mod Spi
pub mod RdiTypes
pub mod Rdi
pub mod ShiTypes
pub mod Shi
